-- ===== src/Untouched/Terminals.antt =====
-- What the calls and the traps of the terminals leave as it was.
use sc0x3a.Base.{ℕ, zero, suc, arith, ℤ}
use sc0x3a.Kernel.{Kernel, Point}
use sc0x3a.Kernel.Monad.{Keeps, malloc, insert_last, put_ready}
use sc0x3a.Terminal.{
  put_io, tty_read_back, sys_TtyRead, block_writer, transmit, write_loop, remaining, sys_TtyWrite,
  receive_loop, trap_tty_receive_hdl, trap_tty_transmit_hdl,
}
use sc0x3a.Places.Terminals.{tty_read_back-Silent}
use sc0x3a.Untouched.{
  Part, Still, Leaves, Leaves-of_Still, Leaves-of_Silent, Leaves-edit, Leaves-out_of_fuel,
  leaves_rules,
}
use sc0x3a.Untouched.Switching.{Leaves-update_pcb, Leaves-normal_schedule}

module _ (x : Part) where
  put_io-Leaves : (p : ℕ) → Leaves x (put_io p)
  unfolding put_io malloc insert_last
  put_io-Leaves p = Leaves-of_Still x (put_io p) λ k. ground arith

  pub Leaves-tty_read_back : (t : ℤ) → Leaves x (tty_read_back t)
  Leaves-tty_read_back t = Leaves-of_Silent x (tty_read_back t) (tty_read_back-Silent t)

  pub Leaves-sys_TtyRead : Leaves x sys_TtyRead
  unfolding sys_TtyRead
  Leaves-sys_TtyRead =
      search
        (
          leaves_rules, Leaves-update_pcb, put_io-Leaves, Leaves-normal_schedule,
          Leaves-tty_read_back,
        )
        depth 20

  block_writer-Leaves : (t : ℤ) (pt : Point) → Leaves x (block_writer t pt)
  unfolding block_writer
  block_writer-Leaves t pt =
      search (leaves_rules, Leaves-update_pcb, put_io-Leaves, Leaves-normal_schedule) depth 20

  transmit-Leaves : (t : ℤ) (a : ℕ) (n : ℤ) → Leaves x (transmit t a n)
  unfolding transmit
  transmit-Leaves t a n = Leaves-of_Still x (transmit t a n) λ k. ground arith

  pub Leaves-write_loop : (fuel : ℕ) (n : ℤ) → Leaves x (write_loop fuel n)
  unfolding write_loop
  Leaves-write_loop zero n = Leaves-out_of_fuel x ℤ
  Leaves-write_loop (suc fuel) n =
      search
        (
          leaves_rules,
          transmit-Leaves,
          block_writer-Leaves,
          Leaves-write_loop fuel n,
          Leaves-write_loop fuel (remaining n),
        )
        depth 20

  pub Leaves-sys_TtyWrite : (fuel : ℕ) → Leaves x (sys_TtyWrite fuel)
  unfolding sys_TtyWrite
  Leaves-sys_TtyWrite fuel = search (leaves_rules, Leaves-write_loop) depth 20

  receive_loop-Still : (fuel : ℕ) (t : ℤ) (k : Kernel) → Keeps (Still k) (receive_loop fuel t k)
  unfolding receive_loop put_ready malloc insert_last
  receive_loop-Still zero t k = tt
  receive_loop-Still (suc fuel) t k = ground (arith, receive_loop-Still fuel t k)

  pub Leaves-trap_tty_receive_hdl :
      (fuel : ℕ) (line : ℕ → ℕ) (n : ℕ) → Leaves x (trap_tty_receive_hdl fuel line n)
  unfolding trap_tty_receive_hdl
  Leaves-trap_tty_receive_hdl fuel line n =
      Leaves-edit x _ _ (λ k. ground arith)
        λ k. Leaves-of_Still x (receive_loop fuel _) (receive_loop-Still fuel _)

  pub Leaves-trap_tty_transmit_hdl : Leaves x trap_tty_transmit_hdl
  unfolding trap_tty_transmit_hdl put_ready malloc insert_last
  Leaves-trap_tty_transmit_hdl = Leaves-of_Still x trap_tty_transmit_hdl λ k. ground arith
