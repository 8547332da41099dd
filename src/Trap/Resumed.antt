-- ===== src/Trap/Resumed.antt =====
-- Where the processes are around what a process does when it is switched to.
use sc0x3a.Base.{ℕ, suc, Bool, true, ℤ, pos, error}
use sc0x3a.Kernel.{
  Kernel, Point, start, preempted, waited, delayed, tty_read, tty_busy, tty_sent, pipe_wait,
  lock_wait, cvar_wait, sem_wait, exited,
}
use sc0x3a.Kernel.Monad.{M, Keeps, get, ◌>>=◌, current_lem}
use sc0x3a.Lock.{acquire_loop, acquire_back, acquire_check, sys_Acquire}
use sc0x3a.Cvar.{cvar_back}
use sc0x3a.Pipe.{pipe_loop, pipe_back}
use sc0x3a.Quiet.{Silent-crash, Silent, Silent-get, Silent-pure}
use sc0x3a.Places.Counting.{Same}
use sc0x3a.Places.Conserve.{
  CanBlock, Conserves, Conserves-of_Silent, Conserves-bind, Conserves-then, Conserves-if,
}
use sc0x3a.Places.Lock.{acquire_loop-places, sys_Acquire-places}
use sc0x3a.Places.Pipes.{pipe_loop-places}
use sc0x3a.Places.Waiting.{wait_back-Silent}
use sc0x3a.Places.Terminals.{tty_read_back-Silent, write_loop-places}
use sc0x3a.Trap.{continue, resume, set_result}
use sc0x3a.Trap.Calls.{set_result-Silent}

module _ (a p fuel : ℕ) where
  acquire_loop-Conserves :
      (n : ℕ) (id : ℤ) (exist in_cvar : Bool)
      → Conserves a p (acquire_loop (suc fuel) n id exist in_cvar)
  unfolding Conserves
  acquire_loop-Conserves n id exist in_cvar k c =
      let (x, xs, r) = c.ready in
      acquire_loop-places a fuel n id exist in_cvar p x xs k c.memory c.active r

  acquire_back-Conserves :
      (n : ℕ) (id : ℤ) (exist in_cvar : Bool)
      → Conserves a p (acquire_back (suc fuel) n id exist in_cvar)
  unfolding acquire_back acquire_check
  acquire_back-Conserves n id exist in_cvar = Conserves-bind a p get _ Silent-get λ k.
      Conserves-if a p _ _ _ (Conserves-of_Silent a p _ (Silent-pure error))
        (acquire_loop-Conserves n id true in_cvar)

  sys_Acquire-Conserves :
      (id : ℤ) (in_cvar : Bool) → Conserves a p (sys_Acquire (suc fuel) id in_cvar)
  unfolding Conserves
  sys_Acquire-Conserves id in_cvar k c =
      let (x, xs, r) = c.ready in sys_Acquire-places a fuel id in_cvar p x xs k c.memory c.active r

  cvar_back-Conserves : (id lock_id : ℤ) → Conserves a p (cvar_back (suc fuel) id lock_id)
  unfolding cvar_back
  cvar_back-Conserves id lock_id = Conserves-bind a p get _ Silent-get λ k.
      Conserves-if a p _ _ _ (Conserves-of_Silent a p _ (Silent-pure error))
        (Conserves-then a p _ _ (sys_Acquire-Conserves lock_id true) λ rc. Silent-pure _)

  pipe_loop-Conserves : (n : ℕ) (exist : Bool) → Conserves a p (pipe_loop (suc fuel) n exist)
  unfolding Conserves
  pipe_loop-Conserves n exist k c =
      let (x, xs, r) = c.ready in pipe_loop-places a fuel n p x exist xs k c.memory c.active r

  pipe_back-Conserves : (n : ℕ) (exist : Bool) → Conserves a p (pipe_back (suc fuel) n exist)
  unfolding pipe_back
  pipe_back-Conserves n exist = Conserves-bind a p get _ Silent-get λ k.
      Conserves-if a p _ _ _ (Conserves-of_Silent a p _ (Silent-pure error))
        (pipe_loop-Conserves n true)

  answered : (m : M ℤ) → Conserves a p m → Conserves a p (m >>= set_result)
  answered m c = Conserves-then a p m set_result c set_result-Silent

  quiet_answer : (m : M ℤ) → Silent m → Conserves a p (m >>= set_result)
  quiet_answer m s = answered m (Conserves-of_Silent a p m s)

  continue-Conserves : (pt : Point) → Conserves a p (continue (suc fuel) pt)
  unfolding continue
  continue-Conserves start = Conserves-of_Silent a p _ (Silent-pure tt)
  continue-Conserves preempted = Conserves-of_Silent a p _ (Silent-pure tt)
  continue-Conserves (waited i) = quiet_answer _ (wait_back-Silent i)
  continue-Conserves delayed = Conserves-of_Silent a p _ (set_result-Silent (pos 0))
  continue-Conserves (tty_read tty_id) = quiet_answer _ (tty_read_back-Silent tty_id)
  continue-Conserves (tty_busy n) = answered _ (write_loop-places a p (suc fuel) n)
  continue-Conserves (tty_sent n) = answered _ (write_loop-places a p (suc fuel) n)
  continue-Conserves (pipe_wait n exist) = answered _ (pipe_back-Conserves n exist)
  continue-Conserves (lock_wait n id exist in_cvar) =
      answered _ (acquire_back-Conserves n id exist in_cvar)
  continue-Conserves (cvar_wait cvar_id lock_id) = answered _ (cvar_back-Conserves cvar_id lock_id)
  continue-Conserves sem_wait = Conserves-of_Silent a p _ (set_result-Silent (pos 0))
  continue-Conserves exited = Conserves-of_Silent a p _ (Silent-crash _)

  -- Where `malloc` does not fail, `p` has been given the processor and another process is ready, what
  -- `p` does first, up to its return to the user or the next switch, leaves every process in as many
  -- places as it was.
  pub resume-places : (k : Kernel) → CanBlock p k → Keeps (Same a k) (resume (suc fuel) k)
  unfolding resume Conserves
  resume-places k c =
      let uc = (k.pcbs p).uctxt in
      let k₁ = record k { uctxt = uc } in
      rw (current_lem k p c.active) (
        continue-Conserves (k.pcbs p).kctxt k₁
          (record { memory = c.memory; active = c.active; ready = c.ready }))
