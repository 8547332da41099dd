-- ===== src/Trap/Fewer.antt =====
-- Where the processes are in runs of the machine with every trap and every call but Fork.
use sc0x3a.Base.{ℕ, suc, ◌≤◌, ◌≡◌, ◌⊎◌, not, ℤ, Bool, true, false, arith, inl, inr, Bool-cases}
use sc0x3a.Kernel.{
  Kernel, Handler, on_kernel, on_clock, on_illegal, on_memory, on_math, on_receive, on_transmit,
  on_disk, on_undefined,
}
use sc0x3a.Kernel.Monad.{
  and_then, Outcome, Keeps, Keeps-bind, Keeps-mono, Keeps-of_Switches, Switches-mono,
}
use sc0x3a.Process.Exit.{sys_Exit}
use sc0x3a.Places.{places}
use sc0x3a.Places.Counting.{Same}
use sc0x3a.Places.Conserve.{CanBlock, Conserves}
use sc0x3a.Places.Exit.{Gone, sys_Exit-Gone}
use sc0x3a.Places.Reclaimed.{Fewer, sys_Reclaim-Fewer}
use sc0x3a.Trap.{
  Call, fork, exit, reclaim, call_of, Outside, dispatch, handle, set_result, trap_kernel_hdl,
  trap_abort, trap_memory_hdl,
}
use sc0x3a.Trap.Calls.{moves_only, dispatch-Conserves}
use sc0x3a.Trap.Resumed.{resume-places}
use sc0x3a.Trap.Machine.{
  Leads-Keeps, trap_eq, Step, computes, traps, resumes, RunsTo, stays, goes_on,
}
use sc0x3a.Trap.Runs.{grows, trap_memory_hdl-places, trap_memory_hdl-abort}
use sc0x3a.Trap.Clock.{trap_clock_hdl-places}
use sc0x3a.Places.Terminals.{trap_tty_receive_hdl-places, trap_tty_transmit_hdl-places}

abbrev pub forks : Call → Bool
forks fork = true
forks _ = false

-- Every trap but that of the call of Fork.
abbrev pub no_fork : ℕ → Kernel → Handler → Bool
no_fork p k on_kernel = not (forks (call_of k.uctxt.code))
no_fork p k _ = true

Fewer-of_Same :
    {A : Type 0} (a : ℕ) (k : Kernel) (r : Outcome A) → Keeps (Same a k) r → Keeps (Fewer a k) r
Fewer-of_Same a k r s = Keeps-mono (Same a k) (Fewer a k) r s λ k' e. omega (arith, e)

-- The result is stored behind a command after which a process stands in no more places.
Fewer-set_result :
    (a : ℕ) (k : Kernel) (r : Outcome ℤ)
    → Keeps (Fewer a k) r
    → Keeps (Fewer a k) (and_then r set_result)
unfolding set_result
Fewer-set_result a k r f = Keeps-bind (Fewer a k) (Fewer a k) r set_result f (λ k₁ g. g) λ x k₁ g. g

exit-Fewer : (a p mode : ℕ) (k : Kernel) → CanBlock p k → Keeps (Fewer a k) (sys_Exit mode k)
exit-Fewer a p mode k c = Keeps-of_Switches (Fewer a k) (sys_Exit mode k) (
    Switches-mono (Gone a p k) (Fewer a k) (sys_Exit mode k) (sys_Exit-Gone a p mode k c)
      λ k' g. omega (arith, g))

trap_abort-Fewer : (a p : ℕ) (k : Kernel) → CanBlock p k → Keeps (Fewer a k) (trap_abort k)
unfolding trap_abort
trap_abort-Fewer a p k c = Fewer-set_result a k (sys_Exit 1 k) (exit-Fewer a p 1 k c)

exit_or_reclaim : (c : Call) → forks c ≡ false → moves_only c ≡ false → (c ≡ exit) ⊎ (c ≡ reclaim)
exit_or_reclaim c no_fork no_move = ground arith

module _ (a p fuel : ℕ) (out : Outside) (k : Kernel) (c : CanBlock p k) where
  dispatch-Fewer :
      (call : Call)
      → forks call ≡ false
      → Keeps (Fewer a k) (dispatch (suc fuel) out.files out.junk call k)
  unfolding dispatch
  dispatch-Fewer call t = elim (Bool-cases (moves_only call)) [
    | inl moves ↦
        Fewer-of_Same a k _
          (unfold Conserves in dispatch-Conserves a p fuel out.files out.junk call moves k c)
    | inr not_moves ↦ elim (exit_or_reclaim call t not_moves) [
      | inl e ↦ rw (e) (exit-Fewer a p 0 k c)
      | inr e ↦ rw (e) (sys_Reclaim-Fewer a p k c.memory c.active)
    ]
  ]

  trap_kernel_hdl-Fewer :
      forks (call_of k.uctxt.code) ≡ false
      → Keeps (Fewer a k) (trap_kernel_hdl (suc fuel) out.files out.junk k)
  unfolding trap_kernel_hdl
  trap_kernel_hdl-Fewer t = Fewer-set_result a k _ (dispatch-Fewer (call_of k.uctxt.code) t)

  trap_memory_hdl-Fewer : Keeps (Fewer a k) (trap_memory_hdl k)
  trap_memory_hdl-Fewer = elim (Bool-cases (grows p k)) [
    | inl g ↦ Fewer-of_Same a k _ (trap_memory_hdl-places a p k g c)
    | inr g ↦ rw (trap_memory_hdl-abort p k g c.active) (trap_abort-Fewer a p k c)
  ]

  handle-Fewer :
      (h : Handler) → no_fork p k h ≡ true → Keeps (Fewer a k) (handle (suc fuel) out h k)
  unfolding handle
  handle-Fewer on_kernel t = trap_kernel_hdl-Fewer (ground (arith, t))
  handle-Fewer on_clock t = Fewer-of_Same a k _ (trap_clock_hdl-places a k c.memory)
  handle-Fewer on_illegal t = trap_abort-Fewer a p k c
  handle-Fewer on_memory t = trap_memory_hdl-Fewer
  handle-Fewer on_math t = trap_abort-Fewer a p k c
  handle-Fewer on_receive t =
      Fewer-of_Same a k _ (trap_tty_receive_hdl-places a (suc fuel) out.line out.count k c.memory)
  handle-Fewer on_transmit t = Fewer-of_Same a k _ (trap_tty_transmit_hdl-places a k c.memory)
  handle-Fewer on_disk t = omega arith
  handle-Fewer on_undefined t = trap_abort-Fewer a p k c

pub Step-Fewer : (a : ℕ) {k k' : Kernel} → Step no_fork k k' → Fewer a k k'
Step-Fewer a (computes m u) = omega arith
Step-Fewer a {k} (traps p fuel out vector h e t c l) =
    Leads-Keeps (Fewer a k) _ _ l
      (rw (trap_eq (suc fuel) out k vector h e) (handle-Fewer a p fuel out k c h t))
Step-Fewer a {k} (resumes p fuel c l) =
    Leads-Keeps (Fewer a k) _ _ l (Fewer-of_Same a k _ (resume-places a p fuel k c))

-- In every run of traps of which none is the call of Fork, of processes that go on where they gave the
-- processor away, and of computations of a process, such that `malloc` does not fail, a process runs and
-- another is ready at each trap and each resumption, every process stands in no more places at the end
-- than at the beginning.
pub RunsTo-Fewer : (a : ℕ) {k k' : Kernel} → RunsTo no_fork k k' → places a k' ≤ places a k
RunsTo-Fewer a stays = omega arith
RunsTo-Fewer a (goes_on r s) = omega (arith, RunsTo-Fewer a r, Step-Fewer a s)
