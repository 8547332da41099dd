-- ===== src/Terminal/Tests.antt =====
-- The loop of trap_tty_receive_hdl where the first process that waits reads from no terminal; a line
-- for process 4, which reads from terminal 0; process 2, which writes 2000 bytes to terminal 1.
use sc0x3a.Base.{ℕ, ◌+◌, ◌≡◌, refl, some, [], ◌∷◌, inl, arith, pos}
use sc0x3a.Kernel.{Kernel, blocked_r}
use sc0x3a.Kernel.Monad.{out_of_fuel}
use sc0x3a.Scheduler.Choice.{GivesTo, choose}
use sc0x3a.Samples.{two_processes, context}
use sc0x3a.Terminal.{write_loop, receive_loop}
use sc0x3a.Terminal.Writes.{Sends, write_loop-Sends}
use sc0x3a.Terminal.Lines.{handed}
use sc0x3a.Terminal.Spin.{receive_loop-spins}

abbrev machine : Kernel
machine = record (two_processes (context 0 0 0)) { io_list = 4 ∷ 5 ∷ [] }

receive_loop-spins_example : receive_loop 1000 (pos 1) machine ≡ out_of_fuel
receive_loop-spins_example = receive_loop-spins 1000 (pos 1) 4 (5 ∷ []) machine refl refl

abbrev line : ℕ → ℕ
line i = 65 + i

abbrev reading : Kernel
reading =
    let k = machine in
    record k {
      pcbs = λ p. record (k.pcbs p) { state = blocked_r; tty_id = pos 0; buf = 0x10_0000 };
    }

abbrev reader_runs : Kernel
reader_runs = record (handed line 3 4 (5 ∷ []) reading) { active_proc = some 4 }

abbrev writing : Kernel
writing = two_processes (context 1 0x10_0000 2000)

write_loop-Sends_example :
    GivesTo (Sends 2 2000 (choose 1 (3 ∷ [])).0 writing) (write_loop 1 (pos 2000) writing)
write_loop-Sends_example =
    write_loop-Sends 0 2000 2 1 (3 ∷ []) writing refl refl refl (inl (omega arith)) (omega arith)
