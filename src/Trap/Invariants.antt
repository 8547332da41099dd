-- ===== src/Trap/Invariants.antt =====
-- Invariants of the kernel through every run of the machine: the pipes, the semaphores, the locks.
use sc0x3a.Base.{
  ℕ, suc, ◌≡◌, ◌⊎◌, refl, Bool, true, false, not, ◌||◌, some, ◌==◌, arith, Bool-cases, inl, inr,
}
use sc0x3a.Kernel.{Kernel, Handler, on_kernel}
use sc0x3a.Kernel.Monad.{Outcome, done, switched, fault, out_of_fuel, Keeps}
use sc0x3a.Pipe.Bounds.{AllFit, sys_PipeWrite-AllFit}
use sc0x3a.Semaphore.Balance.{
  Balanced, sys_Custom_0-Balanced, sys_Custom_1-Balanced, sys_Custom_2-Balanced,
}
use sc0x3a.Trap.{
  Call, call_of, dispatch, pipe_write, release, cvar_wait_call, reclaim, custom_0, custom_1,
  custom_2,
}
use sc0x3a.Trap.Machine.{RunsTo}
use sc0x3a.Trap.Lasting.{Calls, Kept-RunsTo}
use sc0x3a.Untouched.{fits, balanced, held, holder, Kept}
use sc0x3a.Untouched.Calls.{leaves, Kept-dispatch}

-- Every trap.
abbrev pub any_trap : ℕ → Kernel → Handler → Bool
any_trap p k h = true

Keeps-given :
    {A : Type 0} (P Q : Kernel → Type 0) (k : Kernel) (r : Outcome A)
    → (P k → Keeps Q r)
    → Keeps (λ k'. P k → Q k') r
Keeps-given P Q k (done a k') h = h
Keeps-given P Q k (switched k') h = h
Keeps-given P Q k fault h = tt
Keeps-given P Q k out_of_fuel h = tt

only_write : (p : ℕ) (c : Call) → leaves fits p c ≡ false → c ≡ pipe_write
only_write p c e = ground arith

fits-Calls : Calls fits any_trap
unfolding dispatch Kept
fits-Calls p fuel out k t c =
    let call = call_of k.uctxt.code in
    elim (Bool-cases (leaves fits p call)) [
      | inl same ↦ Kept-dispatch fits p k c.active (suc fuel) out.files out.junk call same
      | inr other ↦
          rw (only_write p call other)
            (Keeps-given AllFit AllFit k _ (sys_PipeWrite-AllFit k p c.memory c.active))
    ]

-- In every run of traps, of processes that go on where they gave the processor away, and of computations
-- of a process, such that `malloc` does not fail, a process runs and another is ready at each trap and
-- each resumption, each pipe holds at the end no more than its buffer of 4096 bytes if that is so at the
-- beginning.
pub RunsTo-AllFit : {k k' : Kernel} → RunsTo any_trap k k' → AllFit k → AllFit k'
unfolding Kept
RunsTo-AllFit r = Kept-RunsTo fits refl refl any_trap fits-Calls r

sem_call :
    (p : ℕ) (c : Call)
    → leaves balanced p c ≡ false
    → (c ≡ custom_0) ⊎ (c ≡ custom_1) ⊎ (c ≡ custom_2)
sem_call p c e = ground arith

balanced-Calls : Calls balanced any_trap
unfolding dispatch Kept
balanced-Calls p fuel out k t c =
    let call = call_of k.uctxt.code in
    let (x, xs, ready) = c.ready in
    elim (Bool-cases (leaves balanced p call)) [
      | inl same ↦ Kept-dispatch balanced p k c.active (suc fuel) out.files out.junk call same
      | inr other ↦ elim (sem_call p call other) [
        | inl e ↦ rw (e) (Keeps-given Balanced Balanced k _ (sys_Custom_0-Balanced k c.memory))
        | inr (inl e) ↦
            rw (e) (Keeps-given Balanced Balanced k _ (sys_Custom_1-Balanced k c.memory))
        | inr (inr e) ↦ rw (e) (
            Keeps-given Balanced Balanced k _
              λ b. sys_Custom_2-Balanced k c.memory b p x xs c.active ready)
      ]
    ]

-- In every such run each semaphore whose count is negative has as many waiters as the count is below 0,
-- and any other none, at the end if that is so at the beginning.
pub RunsTo-Balanced : {k k' : Kernel} → RunsTo any_trap k k' → Balanced k → Balanced k'
unfolding Kept
RunsTo-Balanced r = Kept-RunsTo balanced refl refl any_trap balanced-Calls r

-- The calls by which a process gives a lock up, or destroys it.
abbrev pub gives_up : Call → Bool
gives_up release = true
gives_up cvar_wait_call = true
gives_up reclaim = true
gives_up _ = false

-- Every trap but those calls made by `q`.
abbrev pub keeps_locks : ℕ → ℕ → Kernel → Handler → Bool
keeps_locks q p k on_kernel = not (q == p) || not (gives_up (call_of k.uctxt.code))
keeps_locks q p k _ = true

held-leaves :
    (n q p : ℕ) (c : Call) → not (q == p) || not (gives_up c) ≡ true → leaves (held n q) p c ≡ true
held-leaves n q p c t = ground arith

held-Calls : (n q : ℕ) → Calls (held n q) (keeps_locks q)
held-Calls n q p fuel out k t c =
    let call = call_of k.uctxt.code in
    Kept-dispatch (held n q) p k c.active (suc fuel) out.files out.junk call
      (held-leaves n q p call t)

-- In every such run in which `q` itself does not release a lock, wait for a condition variable or
-- reclaim anything, a lock that `q` has taken is still taken by `q` at the end, whatever the other
-- processes do.
pub RunsTo-holder :
    (n q : ℕ) {k k' : Kernel}
    → RunsTo (keeps_locks q) k k'
    → holder n k.lock_list ≡ some q
    → holder n k'.lock_list ≡ some q
unfolding Kept
RunsTo-holder n q r = Kept-RunsTo (held n q) refl refl (keeps_locks q) (held-Calls n q) r
