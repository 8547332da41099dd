-- ===== src/Trap/Lasting.antt =====
-- What holds through every run of the machine.
use sc0x3a.Base.{ℕ, suc, ◌≡◌, refl, Bool, true, some, arith, ℤ, pos}
use sc0x3a.Kernel.{
  Kernel, Handler, Point, on_kernel, on_clock, on_illegal, on_memory, on_math, on_receive,
  on_transmit, on_disk, on_undefined, start, preempted, waited, delayed, tty_read, tty_busy,
  tty_sent, pipe_wait, lock_wait, cvar_wait, sem_wait, exited,
}
use sc0x3a.Kernel.Monad.{M, Keeps, Keeps-bind, current_lem, ◌>>=◌}
use sc0x3a.Places.Conserve.{CanBlock}
use sc0x3a.Process.{wait_back}
use sc0x3a.Places.Waiting.{wait_back-Silent}
use sc0x3a.Process.Exit.{sys_Exit}
use sc0x3a.Trap.{
  Outside, call_of, dispatch, set_result, trap_kernel_hdl, trap_abort, stack_loop, trap_memory_hdl,
  continue, resume, handle,
}
use sc0x3a.Trap.Calls.{set_result-Silent}
use sc0x3a.Trap.Machine.{
  Leads-Keeps, trap_eq, Step, computes, traps, resumes, RunsTo, stays, goes_on,
}
use sc0x3a.Trap.Runs.{stack_loop-Silent}
use sc0x3a.Untouched.{
  Part, Kept, Kept-refl, Kept-trans, Kept-of_Still, Leaves, Leaves-of_Silent, Leaves-bind,
  Leaves-pure, Leaves-crash, Leaves-from, leaves_rules,
}
use sc0x3a.Untouched.Switching.{Leaves-update_pcb}
use sc0x3a.Untouched.Processes.{Leaves-sys_Exit, Leaves-trap_clock_hdl}
use sc0x3a.Untouched.Terminals.{
  Leaves-tty_read_back, Leaves-write_loop, Leaves-trap_tty_receive_hdl,
  Leaves-trap_tty_transmit_hdl,
}
use sc0x3a.Untouched.Pipes.{not_pipes, Leaves-pipe_back}
use sc0x3a.Untouched.Locks.{not_locks, Leaves-acquire_back, Leaves-cvar_back}

module _ (x : Part) where
  pub Leaves-set_result : (rc : ℤ) → Leaves x (set_result rc)
  Leaves-set_result rc = Leaves-of_Silent x (set_result rc) (set_result-Silent rc)

  answers : (m : M ℤ) → Leaves x m → Leaves x (m >>= set_result)
  answers m s = Leaves-bind x m set_result s Leaves-set_result

  Leaves-trap_abort : Leaves x trap_abort
  unfolding trap_abort
  Leaves-trap_abort = answers (sys_Exit 1) (Leaves-sys_Exit x 1)

  Leaves-stack_loop : (p n : ℕ) (i : ℤ) → Leaves x (stack_loop p n i)
  Leaves-stack_loop p n i = Leaves-of_Silent x (stack_loop p n i) (stack_loop-Silent p n i)

  Leaves-trap_memory_hdl : Leaves x trap_memory_hdl
  unfolding trap_memory_hdl
  Leaves-trap_memory_hdl =
      search (leaves_rules, Leaves-stack_loop, Leaves-update_pcb, Leaves-trap_abort) depth 20

  -- What a process does when it goes on leaves the part, unless it is the list of pipes or of locks.
  module _ (u : not_pipes x ≡ true) (l : not_locks x ≡ true) (fuel : ℕ) where
    Leaves-continue : (pt : Point) → Leaves x (continue fuel pt)
    unfolding continue
    Leaves-continue start = Leaves-pure x tt
    Leaves-continue preempted = Leaves-pure x tt
    Leaves-continue (waited i) = answers (wait_back i) (Leaves-of_Silent x _ (wait_back-Silent i))
    Leaves-continue delayed = Leaves-set_result (pos 0)
    Leaves-continue (tty_read t) = answers _ (Leaves-tty_read_back x t)
    Leaves-continue (tty_busy n) = answers _ (Leaves-write_loop x fuel n)
    Leaves-continue (tty_sent n) = answers _ (Leaves-write_loop x fuel n)
    Leaves-continue (pipe_wait a e) = answers _ (Leaves-pipe_back x u fuel a e)
    Leaves-continue (lock_wait a id e c) = answers _ (Leaves-acquire_back x l fuel a id e c)
    Leaves-continue (cvar_wait id i) = answers _ (Leaves-cvar_back x l fuel id i)
    Leaves-continue sem_wait = Leaves-set_result (pos 0)
    Leaves-continue exited = Leaves-crash x _

    pub Kept-resume :
        (p : ℕ) (k : Kernel) → k.active_proc ≡ some p → Keeps (Kept x k) (resume fuel k)
    unfolding resume
    Kept-resume p k act =
        let k₁ = record k { uctxt = (k.pcbs p).uctxt } in
        rw (current_lem k p act) (
          Leaves-from x (continue fuel (k.pcbs p).kctxt) k k₁ (Leaves-continue (k.pcbs p).kctxt)
            (Kept-of_Still x k k₁ (ground arith)))

  -- A trap, where the kernel calls leave the part.
  module _ (fuel : ℕ) (out : Outside) (k : Kernel) where
    Kept-trap_kernel_hdl :
        Keeps (Kept x k) (dispatch fuel out.files out.junk (call_of k.uctxt.code) k)
        → Keeps (Kept x k) (trap_kernel_hdl fuel out.files out.junk k)
    unfolding trap_kernel_hdl
    Kept-trap_kernel_hdl s =
        Keeps-bind (Kept x k) (Kept x k) (dispatch fuel out.files out.junk (call_of k.uctxt.code) k)
          set_result s (λ k₁ h. h)
          λ rc k₁ h. Leaves-from x (set_result rc) k k₁ (Leaves-set_result rc) h

    pub Kept-handle :
        (h : Handler)
        → (h ≡ on_kernel
            → Keeps (Kept x k) (dispatch fuel out.files out.junk (call_of k.uctxt.code) k))
        → Keeps (Kept x k) (handle fuel out h k)
    unfolding handle Leaves
    Kept-handle on_kernel s = Kept-trap_kernel_hdl (s refl)
    Kept-handle on_clock s = Leaves-trap_clock_hdl x k
    Kept-handle on_illegal s = Leaves-trap_abort k
    Kept-handle on_memory s = Leaves-trap_memory_hdl k
    Kept-handle on_math s = Leaves-trap_abort k
    Kept-handle on_receive s = Leaves-trap_tty_receive_hdl x fuel out.line out.count k
    Kept-handle on_transmit s = Leaves-trap_tty_transmit_hdl x k
    Kept-handle on_disk s = Kept-refl x k
    Kept-handle on_undefined s = Leaves-trap_abort k

-- What the kernel calls that `ok` lets pass leave as it is.
abbrev pub Calls : Part → (ℕ → Kernel → Handler → Bool) → Type 0
Calls x ok =
    (p fuel : ℕ) (out : Outside) (k : Kernel)
    → ok p k on_kernel ≡ true
    → CanBlock p k
    → Keeps (Kept x k) (dispatch (suc fuel) out.files out.junk (call_of k.uctxt.code) k)

module _ (x : Part) (u : not_pipes x ≡ true) (l : not_locks x ≡ true)
    (ok : ℕ → Kernel → Handler → Bool) (calls : Calls x ok) where
  pub Kept-Step : {k k' : Kernel} → Step ok k k' → Kept x k k'
  Kept-Step {k} {k'} (computes m c) = Kept-of_Still x k k' (ground arith)
  Kept-Step {k} (traps p fuel out vector h e t c s) = Leads-Keeps (Kept x k) _ _ s (
      rw (trap_eq (suc fuel) out k vector h e)
        (Kept-handle x (suc fuel) out k h λ q. calls p fuel out k (rw (q) at t) c))
  Kept-Step {k} (resumes p fuel c s) =
      Leads-Keeps (Kept x k) _ _ s (Kept-resume x u l (suc fuel) p k c.active)

  pub Kept-RunsTo : {k k' : Kernel} → RunsTo ok k k' → Kept x k k'
  Kept-RunsTo {k} stays = Kept-refl x k
  Kept-RunsTo {k} {k'} (goes_on {k₁} r s) = Kept-trans x k k₁ k' (Kept-RunsTo r) (Kept-Step s)
