-- ===== src/Lock/Exclusion.antt =====
-- The holder of a lock: what sys_Acquire does to a lock that is taken and to one that is free.
use sc0x3a.Base.{
  ℕ, suc, ◌≡◌, refl, Bool, true, false, some, List, [], ◌∷◌, ◌++◌, arith, find, update_first,
  find-update_first, find_passes, ap, ℤ, pos, ltb_ℤ, Bool-cases, inl, inr,
}
use sc0x3a.Kernel.{Kernel, LockInfo, lock_wait}
use sc0x3a.Kernel.Monad.{◌>>◌, Does}
use sc0x3a.Scheduler.{normal_schedule}
use sc0x3a.Scheduler.Switch.{CanRun}
use sc0x3a.Scheduler.Choice.{
  GivesTo, GivesTo-bind, GivesTo-mono, Rescheduled, choose, normal_schedule_lem,
}
use sc0x3a.Lock.{
  sys_Acquire, sys_Release, acquire_loop, acquire_check, asked_lock, is_lock, lock_at, held_by,
}
use sc0x3a.Lock.Steps.{
  sys_Acquire-some, acquire_loop-taken, acquire_loop-free, queued_for_lock, sys_Release-free,
}

-- The lock with a process at the end of its waiters, and the lock in a process's hands.
abbrev pub with_waiter : ℕ → LockInfo → LockInfo
with_waiter p l = record l { lock_wait_list = l.lock_wait_list ++ p ∷ [] }

abbrev pub taken_by : ℕ → LockInfo → LockInfo
taken_by p l = record l { locked = true; pid = p }

abbrev pub freed : LockInfo → LockInfo
freed l = record l { locked = false; pid = 0 }

-- The first lock with the id is the first at its address, so a change of the one is found as the other.
held_by-find :
    (id : ℤ) (p : ℕ) (l : LockInfo) (ls : List LockInfo)
    → find (is_lock id) ls ≡ some l
    → find (lock_at l.addr) ls ≡ some l
    → find (held_by id p) (update_first (lock_at l.addr) (taken_by p) ls) ≡ some (taken_by p l)
held_by-find id p l [] e e' = absurd (cc)
held_by-find id p l (y ∷ ys) e e' = elim (Bool-cases (lock_at l.addr y)) [
  | inl t ↦
      let same : y ≡ l = ground arith in
      let asked = find_passes (is_lock id) l (y ∷ ys) e in rw (t, same, asked) (ground arith)
  | inr t ↦ elim (Bool-cases (is_lock id y)) [
    | inl i ↦ let same : y ≡ l = ground arith in absurd (ground (arith, ap LockInfo.addr same))
    | inr i ↦ rw (t, i) (held_by-find id p l ys (ground arith) (ground arith))
  ]
]

freed_again :
    (id : ℤ) (p : ℕ) (l : LockInfo) (ls : List LockInfo)
    → find (is_lock id) ls ≡ some l
    → find (lock_at l.addr) ls ≡ some l
    → find
        (lock_at l.addr)
        (update_first (held_by id p) freed (update_first (lock_at l.addr) (taken_by p) ls))
      ≡ some (freed l)
freed_again id p l [] e e' = absurd (cc)
freed_again id p l (y ∷ ys) e e' = elim (Bool-cases (lock_at l.addr y)) [
  | inl t ↦
      let same : y ≡ l = ground arith in
      let asked = find_passes (is_lock id) l (y ∷ ys) e in rw (t, same, asked) (ground arith)
  | inr t ↦ elim (Bool-cases (is_lock id y)) [
    | inl i ↦ let same : y ≡ l = ground arith in absurd (ground (arith, ap LockInfo.addr same))
    | inr i ↦ rw (t, i) (rw (t) (freed_again id p l ys (ground arith) (ground arith)))
  ]
]

module _ (k : Kernel) (m : k.mallocs ≡ []) (p : ℕ) (act : k.active_proc ≡ some p) (id : ℤ)
    (in_cvar : Bool) (valid : ltb_ℤ id (pos 0) ≡ false) (l : LockInfo)
    (e : find (is_lock (asked_lock id k)) k.lock_list ≡ some l)
    (e' : find (lock_at l.addr) k.lock_list ≡ some l) where
  -- Where `malloc` does not fail, another process is ready, and the one that is chosen has a kernel stack
  -- or finds frames for one, a process that asks for a lock that is taken, the first with its id and at
  -- its address, does not return from the call: it stands at the end of the lock's waiters, the holder is
  -- the same, and the chosen process runs.
  pub sys_Acquire-excludes :
      (fuel x : ℕ) (xs : List ℕ)
      → k.ready_queue ≡ x ∷ xs
      → l.locked ≡ true
      → CanRun k (choose x xs).0
      → GivesTo
          (λ k'.
            (find (lock_at l.addr) k'.lock_list ≡ some (with_waiter p l))
            × (k'.active_proc ≡ some (choose x xs).0))
          (sys_Acquire (suc fuel) id in_cvar k)
  sys_Acquire-excludes fuel x xs q taken can =
      let asked = asked_lock id k in
      let pt = lock_wait l.addr asked false in_cvar in
      let k₁ = queued_for_lock k m p act l.addr in
      let next = choose x xs in
      let away : GivesTo (Rescheduled k₁ next.0 next.1) (normal_schedule pt k₁) =
        normal_schedule_lem pt x xs k₁ m q can in
      rw
        (
          sys_Acquire-some k id in_cvar (suc fuel) l valid e,
          acquire_loop-taken k m p act fuel l.addr asked false in_cvar l e' taken,
        )
        (GivesTo-bind _ (normal_schedule pt k₁)
          (acquire_check asked false (acquire_loop fuel l.addr asked true in_cvar))
          (GivesTo-mono (Rescheduled k₁ next.0 next.1) _ (normal_schedule pt k₁) away λ k' s. (
            rw (s.locks)
                (find-update_first (lock_at l.addr) (with_waiter p) l k.lock_list (λ y. refl) e'),
            s.active,
          )))

  -- Where `malloc` does not fail, a lock that is free, the first with its id and at its address, and that nobody waits for, is free again once the caller has acquired and
  -- released it; both calls return 0.
  pub sys_Acquire-sys_Release :
      (fuel : ℕ)
      → l.locked ≡ false
      → l.lock_wait_list ≡ []
      → Does
          (λ rc k'.
            (rc ≡ pos 0)
            × (find (lock_at l.addr) k'.lock_list ≡ some (freed l))
            × (k'.ready_queue ≡ k.ready_queue))
          ((do sys_Acquire (suc fuel) id in_cvar; sys_Release (asked_lock id k)) k)
  sys_Acquire-sys_Release fuel free alone =
      let asked = asked_lock id k in
      let k₁ = record k { lock_list = update_first (lock_at l.addr) (taken_by p) k.lock_list } in
      let held = held_by-find asked p l k.lock_list e e' in
      rw
        (
          sys_Acquire-some k id in_cvar (suc fuel) l valid e,
          acquire_loop-free k m p act fuel l.addr asked false in_cvar l e' free,
          sys_Release-free k₁ m p act asked (taken_by p l) held alone,
        )
        (refl, freed_again asked p l k.lock_list e e', refl)
