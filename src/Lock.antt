-- ===== src/Lock.antt =====
-- Locks: sys_LockInit, sys_Acquire and sys_Release of syscall.c, destroy_lock_info of scheduler.c.
pub mod Steps
mod Exclusion
mod Tests
use mathlib.Core.Path.{◌≡◌}
use native.Mathlib.Omega.{arith}
use sc0x3a.Base.{
  ℕ, zero, suc, ◌+◌, Bool, true, false, not, ◌&&◌, ◌||◌, Option, none, some, List, [], ◌∷◌, ◌++◌,
  ◌==◌, if◌then◌else◌, leb, length, find, update_first, remove_first, any, ℤ, pos, eqb_ℤ, ltb_ℤ,
  to_int, error,
}
use sc0x3a.Kernel.{Kernel, Point, LockInfo, ReclaimInfo, Kind}
use sc0x3a.Kernel.Monad.{
  M, out_of_fuel, done, pure, ◌>>=◌, ◌>>◌, get, put, crash, current, malloc, insert_last, put_ready,
}
use sc0x3a.Kernel.Memory.{write_int}
use sc0x3a.Scheduler.{normal_schedule, unblock}

-- `list_insert(&reclaim_list, reclaim_list.len+1, r)`
unfoldable pub put_reclaim : ReclaimInfo → M ℤ
unfolding malloc insert_last
put_reclaim r = do
  b ← malloc
  k ← get
  let (rs, rc) = insert_last k.reclaim_list r b
  put (record k { reclaim_list = rs })
  pure rc

-- `malloc` with the address that it returns, `none` for NULL.
unfoldable pub malloc_at : M (Option ℕ)
unfolding malloc
malloc_at = do
  b ← malloc
  k ← get
  put (record k { fresh = k.fresh + 1 })
  pure (if b then some k.fresh else none)

unfoldable pub sys_LockInit : M ℤ
unfolding malloc malloc_at insert_last put_reclaim
sys_LockInit = do
  l ← malloc_at
  r ← malloc
  elim l [
    | none ↦ pure error
    | some addr ↦ if not r then pure error else do
      k ← get
      let lockid = length k.reclaim_list + 1
      h ← malloc
      if not h then pure error else do
        write_int k.uctxt.reg0 (pos lockid)
        b ← malloc
        k ← get
        let (locks, rc) =
            insert_last k.lock_list
              (record {
                addr = addr;
                lockid = lockid;
                locked = false;
                pid = 0;
                lock_wait_list = [];
              })
              b
        put (record k { lock_list = locks })
        if not b then pure rc else put_reclaim (record { id = lockid; kind = Kind.lock })
  ]

abbrev pub is_lock : ℤ → LockInfo → Bool
is_lock id l = eqb_ℤ (pos l.lockid) id

abbrev pub lock_at : ℕ → LockInfo → Bool
lock_at a l = l.addr == a

-- `list_insert(&(l->lock_wait_list), len+1, active_proc)`
unfoldable pub wait_for_lock : ℕ → ℕ → M (Unit {0})
unfolding malloc insert_last
wait_for_lock a p = do
  b ← malloc
  k ← get
  put (record k {
    lock_list =
        update_first (lock_at a)
          (λ l. record l { lock_wait_list = (insert_last l.lock_wait_list p b).0 }) k.lock_list;
  })

-- What sys_Acquire does when its process runs again, with what normal_schedule returned: it looks
-- whether the lock still exists, and goes round its loop.
unfoldable pub acquire_check : ℤ → Bool → M ℤ → ℤ → M ℤ
acquire_check lock_id exist loop rc =
    if not (eqb_ℤ rc (pos 0))
    then pure error
    else do k ← get; if not (exist || any (is_lock lock_id) k.lock_list) then pure error else loop

-- The loop of sys_Acquire at the lock `a`, with its `exist`, and the assignments behind it. The
-- caller goes round while nobody else can run, so the rounds are counted by fuel.
unfoldable pub acquire_loop : ℕ → ℕ → ℤ → Bool → Bool → M ℤ
unfolding wait_for_lock acquire_check
acquire_loop zero a lock_id exist in_cvar = λ _. out_of_fuel
acquire_loop (suc fuel) a lock_id exist in_cvar =
    let loop = acquire_loop fuel a lock_id true in_cvar in
    do
      k ← get
      p ← current
      elim (find (lock_at a) k.lock_list) [
        | none ↦ crash
        | some l ↦
            if l.locked
            then (do
              wait_for_lock a p
              rc ← normal_schedule (Point.lock_wait a lock_id exist in_cvar)
              acquire_check lock_id exist loop rc)
            else do
              put (record k {
                lock_list =
                    update_first (lock_at a) (λ l. record l { locked = true; pid = p }) k.lock_list;
              })
              pure (pos 0)
      ]

unfoldable pub acquire_back : ℕ → ℕ → ℤ → Bool → Bool → M ℤ
unfolding acquire_loop
acquire_back fuel a lock_id exist in_cvar =
    acquire_check lock_id exist (acquire_loop fuel a lock_id true in_cvar) (pos 0)

-- `id` is 0 (NULL) in the call for a process, which passes the lock's id in its first register.
abbrev pub asked_lock : ℤ → Kernel → ℤ
asked_lock id k = if eqb_ℤ id (pos 0) then to_int k.uctxt.reg0 else id

unfoldable pub sys_Acquire : ℕ → ℤ → Bool → M ℤ
unfolding acquire_loop
sys_Acquire fuel id in_cvar = do
  k ← get
  if ltb_ℤ id (pos 0) then pure (pos 0) else elim (find (is_lock (asked_lock id k)) k.lock_list) [
    | none ↦ pure error
    | some l ↦ acquire_loop fuel l.addr (asked_lock id k) false in_cvar
  ]

abbrev pub held_by : ℤ → ℕ → LockInfo → Bool
held_by lock_id p l = is_lock lock_id l && (l.pid == p) && l.locked

unfoldable pub sys_Release : ℤ → M ℤ
unfolding put_ready
sys_Release lock_id = do
  k ← get
  p ← current
  elim (find (held_by lock_id p) k.lock_list) [
    | none ↦ pure error
    | some l ↦ elim l.lock_wait_list [
      | [] ↦ do
        put (record k {
          lock_list =
              update_first (held_by lock_id p) (λ l. record l { locked = false; pid = 0 })
                k.lock_list;
        })
        pure (pos 0)
      | w ∷ ws ↦ do
        put (record k {
          lock_list =
              update_first (held_by lock_id p)
                (λ l. record l { locked = false; pid = w; lock_wait_list = ws }) k.lock_list;
        })
        put_ready w
        pure (pos 0)
    ]
  ]

-- What destroy_lock_info looks for: the lock, free or held by the caller.
abbrev pub destroyable : ℤ → ℕ → LockInfo → Bool
destroyable id p l = is_lock id l && (((l.pid == p) && l.locked) || not l.locked)

unfoldable pub destroy_lock_info : ℤ → M ℤ
unfolding unblock
destroy_lock_info lock_id = do
  k ← get
  if ltb_ℤ lock_id (pos 0) then pure error else do
    p ← current
    elim (find (destroyable lock_id p) k.lock_list) [
      | none ↦ pure error
      | some l ↦ do
        unblock 1 l.lock_wait_list
        k ← get
        put (record k { lock_list = remove_first (destroyable lock_id p) k.lock_list })
        pure (pos 0)
    ]

-- Where `malloc` does not fail.
pub malloc_at_lem :
    (k : Kernel)
    → k.mallocs ≡ []
    → malloc_at k ≡ done (some k.fresh) (record k { fresh = k.fresh + 1 })
unfolding malloc_at
malloc_at_lem k m = ground arith

pub put_reclaim_lem :
    (r : ReclaimInfo) (k : Kernel)
    → k.mallocs ≡ []
    → put_reclaim r k ≡ done (pos 0) (record k { reclaim_list = k.reclaim_list ++ r ∷ [] })
unfolding put_reclaim
put_reclaim_lem r k m = ground arith
