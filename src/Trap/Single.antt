-- ===== src/Trap/Single.antt =====
-- No process stands in two places, in any run of the machine.
use sc0x3a.Base.{
  ℕ, suc, ◌+◌, ◌≤◌, ◌≡◌, refl, true, false, not, ltb, if◌then◌else◌, arith, Bool-cases, inl, inr,
}
use sc0x3a.Kernel.{Kernel, Handler, on_kernel}
use sc0x3a.Kernel.Monad.{Keeps, Keeps-bind}
use sc0x3a.Process.{sys_Fork}
use sc0x3a.Places.{places}
use sc0x3a.Places.Conserve.{CanBlock}
use sc0x3a.Places.Forked.{Raised, sys_Fork-Raised}
use sc0x3a.Trap.{Call, fork, Outside, call_of, dispatch, handle, set_result, trap_kernel_hdl}
use sc0x3a.Trap.Machine.{
  Leads-Keeps, trap_eq, Step, computes, traps, resumes, RunsTo, stays, goes_on,
}
use sc0x3a.Trap.Fewer.{forks, no_fork, Step-Fewer}
use sc0x3a.Trap.Lasting.{Calls, Kept-Step}
use sc0x3a.Trap.Invariants.{any_trap}
use sc0x3a.Untouched.{pids, Kept}
use sc0x3a.Untouched.Calls.{leaves, Kept-dispatch}

-- No process stands in two places, and none with a pid that has not been handed out stands in one.
abbrev pub Single : Kernel → Type 0
Single k = (a : ℕ) → places a k ≤ (if ltb a k.next_pid then 1 else 0)

pid_leaves : (p : ℕ) (c : Call) → not (forks c) ≡ true → leaves pids p c ≡ true
pid_leaves p c t = ground arith

pids-Calls : Calls pids no_fork
pids-Calls p fuel out k t c =
    let call = call_of k.uctxt.code in
    Kept-dispatch pids p k c.active (suc fuel) out.files out.junk call (pid_leaves p call t)

-- A step that makes no process.
quiet_Step : {k k' : Kernel} → Step no_fork k k' → Single k → Single k'
unfolding Kept
quiet_Step {k} {k'} s h a =
    let fewer = Step-Fewer a s in
    let same : k'.next_pid ≡ k.next_pid = Kept-Step pids refl refl no_fork pids-Calls s in
    rw (same) (omega (arith, h a, fewer))

fork_call : (c : Call) → not (forks c) ≡ false → c ≡ fork
fork_call c e = ground arith

forked_only :
    (p : ℕ) (k : Kernel) (h : Handler)
    → no_fork p k h ≡ false
    → (h ≡ on_kernel) × (call_of k.uctxt.code ≡ fork)
forked_only p k on_kernel e = (refl, fork_call (call_of k.uctxt.code) e)
forked_only p k _ e = absurd (cc)

-- A pid more has been handed out, and its process stands in at most one place more.
abbrev Forked : ℕ → Kernel → Kernel → Type 0
Forked a k k' = Raised a k.next_pid k k' × (k'.next_pid ≡ k.next_pid + 1)

fork-Forked :
    (a p fuel : ℕ) (out : Outside) (k : Kernel)
    → call_of k.uctxt.code ≡ fork
    → CanBlock p k
    → Keeps (Forked a k) (handle fuel out on_kernel k)
unfolding handle trap_kernel_hdl dispatch set_result
fork-Forked a p fuel out k e c = rw (e) (
    Keeps-bind (Forked a k) (Forked a k) (sys_Fork k) set_result
      (sys_Fork-Raised a p k c.memory c.active) (λ k₁ r. r) λ rc k₁ r. r)

Single-Forked : (k k' : Kernel) → ((a : ℕ) → Forked a k k') → Single k → Single k'
Single-Forked k k' f h a = let (raised, next) = f a in rw (next) (ground (arith, raised, h a))

pub Step-Single : {k k' : Kernel} → Step any_trap k k' → Single k → Single k'
Step-Single (computes m u) h = h
Step-Single {k} {k'} (traps p fuel out vector h e t c l) s = elim (Bool-cases (no_fork p k h)) [
  | inl none_made ↦ quiet_Step (traps p fuel out vector h e none_made c l) s
  | inr made ↦
      let (on, call) = forked_only p k h made in
      Single-Forked k k'
        (λ a. Leads-Keeps (Forked a k) _ _ l (
          rw (trap_eq (suc fuel) out k vector h e)
            (rw (on) (fork-Forked a p (suc fuel) out k call c))))
        s
]
Step-Single (resumes p fuel c l) s = quiet_Step (resumes p fuel c l) s

-- In every run of traps, of processes that go on where they gave the processor away, and of computations
-- of a process, such that `malloc` does not fail, a process runs and another is ready at each trap and
-- each resumption: if at the beginning no process stands in two places and none whose pid has not been
-- handed out stands in one, that is so at the end.
pub RunsTo-Single : {k k' : Kernel} → RunsTo any_trap k k' → Single k → Single k'
RunsTo-Single stays h = h
RunsTo-Single (goes_on r s) h = Step-Single s (RunsTo-Single r h)
