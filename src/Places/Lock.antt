-- ===== src/Places/Lock.antt =====
-- Where the processes are around the calls of a lock: sys_LockInit, sys_Acquire and sys_Release.
use sc0x3a.Base.{
  ℕ, suc, ◌+◌, ◌≡◌, ap, inl, inr, Bool, true, false, some, List, [], ◌∷◌, ◌++◌, arith, length,
  count, count-append, find, ℤ, pos, ltb_ℤ, Bool-cases, Option-cases, List-cases,
}
use sc0x3a.Kernel.{Kernel, LockInfo, lock_wait}
use sc0x3a.Kernel.Monad.{Keeps}
use sc0x3a.Kernel.Memory.Frame.{write_int_cases}
use sc0x3a.Lock.{
  sys_LockInit, acquire_loop, acquire_check, sys_Acquire, sys_Release, held_by, asked_lock, is_lock,
  lock_at,
}
use sc0x3a.Lock.Steps.{
  new_lock, sys_LockInit_eq, sys_LockInit-fault, sys_Release-free, sys_Release-wake,
  sys_Release-none, acquire_loop-gone, acquire_loop-free, sys_Acquire-negative, sys_Acquire-none,
  sys_Acquire-some, acquire_loop-taken, queued_for_lock,
}
use sc0x3a.Places.{count_in, count_active, lock_waiters}
use sc0x3a.Places.Counting.{Same, block-Same, count_in-append, count_in-update_first}

pub sys_LockInit-places : (a : ℕ) (k : Kernel) → k.mallocs ≡ [] → Keeps (Same a k) (sys_LockInit k)
unfolding count_in
sys_LockInit-places a k m =
    elim (write_int_cases k.uctxt.reg0 (pos (length k.reclaim_list + 1))
      (record k { fresh = k.fresh + 1 })) [
        | inl e ↦ rw (sys_LockInit-fault k m e) tt
        | inr (f, e) ↦
            rw (sys_LockInit_eq k m f e)
              (omega (arith, count_in-append lock_waiters a k.lock_list (new_lock k m ∷ [])))
      ]

-- Where `malloc` does not fail, sys_Release leaves every process in as many places as it was.
pub sys_Release-places :
    (a : ℕ) (lock_id : ℤ) (p : ℕ) (k : Kernel)
    → k.mallocs ≡ []
    → k.active_proc ≡ some p
    → Keeps (Same a k) (sys_Release lock_id k)
sys_Release-places a lock_id p k m act =
    elim (Option-cases (find (held_by lock_id p) k.lock_list)) [
      | inl f ↦ rw (sys_Release-none k m p act lock_id f)
      | inr (l, f) ↦
          let changed = λ (g : LockInfo → LockInfo).
            count_in-update_first lock_waiters a (held_by lock_id p) g l k.lock_list f in
          elim (List-cases l.lock_wait_list) [
            | inl w ↦
                rw (sys_Release-free k m p act lock_id l f w)
                  (omega (arith, changed (λ l. record l { locked = false; pid = 0 })))
            | inr (q, qs, w) ↦ rw (sys_Release-wake k m p act lock_id l q qs f w) (
                omega (
                  arith,
                  ap (count a) w,
                  changed (λ l. record l { locked = false; pid = q; lock_wait_list = qs }),
                  count-append a k.ready_queue (q ∷ []),
                ))
          ]
    ]

pub acquire_loop-places :
    (a fuel n : ℕ) (id : ℤ) (exist in_cvar : Bool) (p x : ℕ) (xs : List ℕ) (k : Kernel)
    → k.mallocs ≡ []
    → k.active_proc ≡ some p
    → k.ready_queue ≡ x ∷ xs
    → Keeps (Same a k) (acquire_loop (suc fuel) n id exist in_cvar k)
acquire_loop-places a fuel n id exist in_cvar p x xs k m act e =
    elim (Option-cases (find (lock_at n) k.lock_list)) [
      | inl f ↦ rw (acquire_loop-gone k m p act fuel n id exist in_cvar f) tt
      | inr (l, f) ↦ elim (Bool-cases l.locked) [
        | inl taken ↦ rw (acquire_loop-taken k m p act fuel n id exist in_cvar l f taken) (
            block-Same a x xs (lock_wait n id exist in_cvar) k (queued_for_lock k m p act n)
              (acquire_check id exist (acquire_loop fuel n id true in_cvar)) m e
              (omega (
                arith,
                ap (count_active a) act,
                count-append a l.lock_wait_list (p ∷ []),
                count_in-update_first lock_waiters a (lock_at n)
                    (λ l. record l { lock_wait_list = l.lock_wait_list ++ p ∷ [] }) l k.lock_list f,
              )))
        | inr free ↦ rw (acquire_loop-free k m p act fuel n id exist in_cvar l f free) (
            omega (
              arith,
              count_in-update_first lock_waiters a (lock_at n)
                  (λ l. record l { locked = true; pid = p }) l k.lock_list f,
            ))
      ]
    ]

-- Where `malloc` does not fail and another process is ready, sys_Acquire, whether it returns or gives
-- the processor away, leaves every process in as many places as it was.
pub sys_Acquire-places :
    (a fuel : ℕ) (id : ℤ) (in_cvar : Bool) (p x : ℕ) (xs : List ℕ) (k : Kernel)
    → k.mallocs ≡ []
    → k.active_proc ≡ some p
    → k.ready_queue ≡ x ∷ xs
    → Keeps (Same a k) (sys_Acquire (suc fuel) id in_cvar k)
sys_Acquire-places a fuel id in_cvar p x xs k m act e = elim (Bool-cases (ltb_ℤ id (pos 0))) [
  | inl neg ↦ rw (sys_Acquire-negative k id in_cvar (suc fuel) neg)
  | inr ge ↦ elim (Option-cases (find (is_lock (asked_lock id k)) k.lock_list)) [
    | inl f ↦ rw (sys_Acquire-none k id in_cvar (suc fuel) ge f)
    | inr (l, f) ↦
        rw (sys_Acquire-some k id in_cvar (suc fuel) l ge f)
          (acquire_loop-places a fuel l.addr (asked_lock id k) false in_cvar p x xs k m act e)
  ]
]
