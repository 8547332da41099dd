-- ===== src/Terminal/Lines.antt =====
-- A line on its way from trap_tty_receive_hdl of trap.c to the process that waits for it in sys_TtyRead
-- of syscall.c.
use sc0x3a.Base.{ℕ, ◌+◌, List, [], ◌∷◌, ◌++◌, if◌then◌else◌, ◌==◌, ℤ, pos, eqb_ℤ, to_int}
use sc0x3a.Kernel.{Kernel}
use sc0x3a.Kernel.Monad.{Outcome, pure, ◌>>=◌, set_pcb}
use sc0x3a.Kernel.Memory.{write_bytes}
use sc0x3a.Pipe.{bytes}

-- The line with a 0 behind it, as trap_tty_receive_hdl keeps it.
abbrev pub ended : (ℕ → ℕ) → ℕ → ℕ → ℕ
ended line n i = if i == n then 0 else line i

-- The state with the line in the buffer of the terminal of the trap.
abbrev pub arrived : (ℕ → ℕ) → ℕ → Kernel → Kernel
arrived line n k = record k {
  receive = λ t. if eqb_ℤ t (to_int k.uctxt.code) then ended line n else k.receive t;
  string_len = n + 1;
}

-- That state with the process `p` made ready and `ps` behind it among those that wait.
abbrev pub handed : (ℕ → ℕ) → ℕ → ℕ → List ℕ → Kernel → Kernel
handed line n p ps k = record (arrived line n k) {
  io_list = ps;
  ready_queue = k.ready_queue ++ p ∷ [];
}

-- The process `p` is given the line and a 0 behind it.
abbrev pub given : (ℕ → ℕ) → ℕ → ℕ → Kernel → Outcome ℤ
given line n p k =
    (write_bytes (k.pcbs p).buf (bytes line 0 n ++ 0 ∷ []) >>= λ _. pure (pos (n + 1)))
      (record k { pcbs = set_pcb k.pcbs p (record (k.pcbs p) { len = pos (n + 1) }) })
