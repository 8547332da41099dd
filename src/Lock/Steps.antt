-- ===== src/Lock/Steps.antt =====
-- What the calls of a lock do, branch by branch, where `malloc` does not fail.
use sc0x3a.Base.{
  ℕ, suc, ◌+◌, ◌≡◌, Bool, true, false, none, some, List, [], ◌∷◌, ◌++◌, arith, length, find,
  update_first, ℤ, pos, error, ltb_ℤ,
}
use sc0x3a.Kernel.{Kernel, LockInfo, lock_wait, lock}
use sc0x3a.Kernel.Monad.{done, fault, and_then, insert_last, put_ready_lem, malloc_lem}
use sc0x3a.Kernel.Memory.{write_int}
use sc0x3a.Scheduler.{normal_schedule}
use sc0x3a.Lock.{
  sys_LockInit, acquire_loop, sys_Acquire, sys_Release, held_by, malloc_at_lem, put_reclaim_lem,
  asked_lock, is_lock, lock_at, wait_for_lock, acquire_check,
}

module _ (k : Kernel) (m : k.mallocs ≡ []) where
  -- The lock that sys_LockInit makes.
  abbrev pub new_lock : LockInfo
  new_lock = record {
    addr = k.fresh;
    lockid = length k.reclaim_list + 1;
    locked = false;
    pid = 0;
    lock_wait_list = [];
  }

  pub sys_LockInit_eq :
      (f : ℕ → ℕ → ℕ)
      → write_int k.uctxt.reg0 (pos (length k.reclaim_list + 1)) (record k { fresh = k.fresh + 1 })
        ≡ done tt (record k { fresh = k.fresh + 1; phys = f })
      → sys_LockInit k
        ≡ done (pos 0) (record k {
          fresh = k.fresh + 1;
          phys = f;
          lock_list = k.lock_list ++ new_lock ∷ [];
          reclaim_list =
              k.reclaim_list ++ record { id = length k.reclaim_list + 1; kind = lock } ∷ [];
        })
  unfolding sys_LockInit insert_last
  sys_LockInit_eq f e =
      let k₁ = record k { fresh = k.fresh + 1 } in
      let k₂ = record k₁ { phys = f } in
      rw (malloc_at_lem k m, malloc_lem k₁ m, malloc_lem k₁ m, e, malloc_lem k₂ m)
        (put_reclaim_lem (record { id = length k.reclaim_list + 1; kind = lock })
          (record k₂ { lock_list = k.lock_list ++ new_lock ∷ [] }) m)

  pub sys_LockInit-fault :
      write_int k.uctxt.reg0 (pos (length k.reclaim_list + 1)) (record k { fresh = k.fresh + 1 })
        ≡ fault
      → sys_LockInit k ≡ fault
  unfolding sys_LockInit
  sys_LockInit-fault e =
      let k₁ = record k { fresh = k.fresh + 1 } in
      rw (malloc_at_lem k m, malloc_lem k₁ m, malloc_lem k₁ m, e)

  module _ (p : ℕ) (a : k.active_proc ≡ some p) where
    pub sys_Release-free :
        (lock_id : ℤ) (l : LockInfo)
        → find (held_by lock_id p) k.lock_list ≡ some l
        → l.lock_wait_list ≡ []
        → sys_Release lock_id k
          ≡ done (pos 0) (record k {
            lock_list =
                update_first
                  (held_by lock_id p)
                  (λ l. record l { locked = false; pid = 0 })
                  k.lock_list;
          })
    unfolding sys_Release
    sys_Release-free lock_id l f w = ground arith

    pub sys_Release-wake :
        (lock_id : ℤ) (l : LockInfo) (q : ℕ) (qs : List ℕ)
        → find (held_by lock_id p) k.lock_list ≡ some l
        → l.lock_wait_list ≡ q ∷ qs
        → sys_Release lock_id k
          ≡ done (pos 0) (record k {
            lock_list =
                update_first
                  (held_by lock_id p)
                  (λ l. record l { locked = false; pid = q; lock_wait_list = qs })
                  k.lock_list;
            ready_queue = k.ready_queue ++ q ∷ [];
          })
    unfolding sys_Release
    sys_Release-wake lock_id l q qs f w = ground (
      arith,
      put_ready_lem q (record k {
        lock_list =
            update_first (held_by lock_id p)
              (λ l. record l { locked = false; pid = q; lock_wait_list = qs }) k.lock_list;
      }),
    )

    pub sys_Release-none :
        (lock_id : ℤ)
        → find (held_by lock_id p) k.lock_list ≡ none
        → sys_Release lock_id k ≡ done error k
    unfolding sys_Release
    sys_Release-none lock_id f = ground arith

    pub acquire_loop-free :
        (fuel n : ℕ) (id : ℤ) (exist in_cvar : Bool) (l : LockInfo)
        → find (lock_at n) k.lock_list ≡ some l
        → l.locked ≡ false
        → acquire_loop (suc fuel) n id exist in_cvar k
          ≡ done (pos 0) (record k {
            lock_list =
                update_first (lock_at n) (λ l. record l { locked = true; pid = p }) k.lock_list;
          })
    unfolding acquire_loop
    acquire_loop-free fuel n id exist in_cvar l f free = ground arith

    pub acquire_loop-gone :
        (fuel n : ℕ) (id : ℤ) (exist in_cvar : Bool)
        → find (lock_at n) k.lock_list ≡ none
        → acquire_loop (suc fuel) n id exist in_cvar k ≡ fault
    unfolding acquire_loop
    acquire_loop-gone fuel n id exist in_cvar f = ground arith

    -- The state in which a process that finds the lock taken gives the processor away.
    abbrev pub queued_for_lock : ℕ → Kernel
    queued_for_lock n = record k {
      lock_list =
          update_first (lock_at n) (λ l. record l { lock_wait_list = l.lock_wait_list ++ p ∷ [] })
            k.lock_list;
    }

    pub wait_for_lock_lem : (n : ℕ) → wait_for_lock n p k ≡ done tt (queued_for_lock n)
    unfolding wait_for_lock insert_last
    wait_for_lock_lem n = rw (malloc_lem k m)

    -- A process that finds the lock taken queues for it and gives the processor away.
    pub acquire_loop-taken :
        (fuel n : ℕ) (id : ℤ) (exist in_cvar : Bool) (l : LockInfo)
        → find (lock_at n) k.lock_list ≡ some l
        → l.locked ≡ true
        → acquire_loop (suc fuel) n id exist in_cvar k
          ≡ and_then
              (normal_schedule (lock_wait n id exist in_cvar) (queued_for_lock n))
              (acquire_check id exist (acquire_loop fuel n id true in_cvar))
    unfolding acquire_loop
    acquire_loop-taken fuel n id exist in_cvar l f taken = ground (arith, wait_for_lock_lem n)

module _ (k : Kernel) (id : ℤ) (in_cvar : Bool) (fuel : ℕ) where
  pub sys_Acquire-negative :
      ltb_ℤ id (pos 0) ≡ true → sys_Acquire fuel id in_cvar k ≡ done (pos 0) k
  unfolding sys_Acquire
  sys_Acquire-negative neg = rw neg

  pub sys_Acquire-none :
      ltb_ℤ id (pos 0) ≡ false
      → find (is_lock (asked_lock id k)) k.lock_list ≡ none
      → sys_Acquire fuel id in_cvar k ≡ done error k
  unfolding sys_Acquire
  sys_Acquire-none ge f = rw ge (ground arith)

  pub sys_Acquire-some :
      (l : LockInfo)
      → ltb_ℤ id (pos 0) ≡ false
      → find (is_lock (asked_lock id k)) k.lock_list ≡ some l
      → sys_Acquire fuel id in_cvar k ≡ acquire_loop fuel l.addr (asked_lock id k) false in_cvar k
  unfolding sys_Acquire
  sys_Acquire-some l ge f = rw ge (ground arith)
