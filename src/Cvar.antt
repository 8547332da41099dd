-- ===== src/Cvar.antt =====
-- Condition variables: sys_CvarInit, sys_CvarSignal, sys_CvarBroadcast and sys_CvarWait of
-- syscall.c, destroy_cvar_info of scheduler.c.
pub mod Steps
use sc0x3a.Base.{
  ℕ, ◌+◌, Bool, true, false, not, Option, none, some, List, [], ◌∷◌, if◌then◌else◌, length, find,
  update_first, remove_first, any, ◌==◌, ℤ, pos, eqb_ℤ, ltb_ℤ, to_int, error,
}
use sc0x3a.Kernel.{Kernel, Point, CvarInfo, ReclaimInfo, Kind}
use sc0x3a.Kernel.Monad.{
  M, done, crash, pure, ◌>>=◌, ◌>>◌, get, put, current, malloc, insert_last, put_ready,
}
use sc0x3a.Kernel.Memory.{write_int}
use sc0x3a.Scheduler.{normal_schedule, unblock}
use sc0x3a.Lock.{put_reclaim, malloc_at, sys_Acquire, sys_Release}

-- `r` is written to with no test of what `malloc` returned.
unfoldable pub sys_CvarInit : M ℤ
unfolding malloc malloc_at insert_last put_reclaim
sys_CvarInit = do
  r ← malloc
  c ← malloc_at
  elim c [
    | none ↦ pure error
    | some addr ↦ do
      k ← get
      let cvarid = length k.reclaim_list + 1
      h ← malloc
      if not h then pure error else do
        write_int k.uctxt.reg0 (pos cvarid)
        b ← malloc
        k ← get
        let (cvars, rc) =
            insert_last k.cvar_list (record { addr = addr; cvarid = cvarid; cvar_wait_list = [] }) b
        put (record k { cvar_list = cvars })
        if not b
            then pure rc
            else if not r
            then crash
            else put_reclaim (record { id = cvarid; kind = Kind.cvar })
  ]

abbrev pub is_cvar : ℤ → CvarInfo → Bool
is_cvar id c = eqb_ℤ (pos c.cvarid) id

unfoldable pub set_waiters : ℤ → List ℕ → M (Unit {0})
set_waiters id ws = do
  k ← get
  put (record k {
    cvar_list = update_first (is_cvar id) (λ c. record c { cvar_wait_list = ws }) k.cvar_list;
  })

unfoldable pub sys_CvarSignal : M ℤ
unfolding put_ready set_waiters
sys_CvarSignal = do
  k ← get
  let cvar_id = to_int k.uctxt.reg0
  if ltb_ℤ cvar_id (pos 0) then pure error else elim (find (is_cvar cvar_id) k.cvar_list) [
    | none ↦ pure error
    | some c ↦ elim c.cvar_wait_list [
      | [] ↦ pure (pos 0)
      | p ∷ ps ↦ do set_waiters cvar_id ps; put_ready p
    ]
  ]

-- The loop of sys_CvarBroadcast.
unfoldable pub wake_all : ℤ → List ℕ → M ℤ
unfolding put_ready set_waiters
wake_all cvar_id [] = pure (pos 0)
wake_all cvar_id (p ∷ ps) = do
  set_waiters cvar_id ps
  rc ← put_ready p
  let rest = wake_all cvar_id ps
  if not (eqb_ℤ rc (pos 0)) then pure error else rest

unfoldable pub sys_CvarBroadcast : M ℤ
unfolding wake_all
sys_CvarBroadcast = do
  k ← get
  let cvar_id = to_int k.uctxt.reg0
  if ltb_ℤ cvar_id (pos 0) then pure error else elim (find (is_cvar cvar_id) k.cvar_list) [
    | none ↦ pure error
    | some c ↦ wake_all cvar_id c.cvar_wait_list
  ]

-- What sys_CvarWait does when its process runs again.
unfoldable pub cvar_back : ℕ → ℤ → ℤ → M ℤ
unfolding sys_Acquire
cvar_back fuel cvar_id lock_id = do
  k ← get
  if not (any (is_cvar cvar_id) k.cvar_list)
      then pure error
      else do rc ← sys_Acquire fuel lock_id true; pure (if eqb_ℤ rc (pos 0) then pos 0 else error)

unfoldable pub cvar_resume : ℕ → ℤ → ℤ → ℤ → M ℤ
unfolding cvar_back
cvar_resume fuel cvar_id lock_id rc =
    if not (eqb_ℤ rc (pos 0)) then pure error else cvar_back fuel cvar_id lock_id

-- The part of sys_CvarWait behind the release of the lock.
unfoldable pub cvar_queue : ℕ → ℤ → ℤ → M ℤ
unfolding malloc insert_last cvar_resume
cvar_queue fuel cvar_id lock_id = do
  k ← get
  elim (find (is_cvar cvar_id) k.cvar_list) [
    | none ↦ pure error
    | some c ↦ do
      p ← current
      b ← malloc
      k ← get
      put (record k {
        cvar_list =
            update_first (is_cvar cvar_id)
              (λ c. record c { cvar_wait_list = (insert_last c.cvar_wait_list p b).0 }) k.cvar_list;
      })
      rc ← normal_schedule (Point.cvar_wait cvar_id lock_id)
      cvar_resume fuel cvar_id lock_id rc
  ]

unfoldable pub sys_CvarWait : ℕ → M ℤ
unfolding sys_Release cvar_queue
sys_CvarWait fuel = do
  k ← get
  let cvar_id = to_int k.uctxt.reg0
  let lock_id = to_int k.uctxt.reg1
  rc ← sys_Release lock_id
  if not (eqb_ℤ rc (pos 0)) then pure error else cvar_queue fuel cvar_id lock_id

unfoldable pub destroy_cvar_info : ℤ → M ℤ
unfolding unblock
destroy_cvar_info cvar_id = do
  k ← get
  if ltb_ℤ cvar_id (pos 0) then pure error else elim (find (is_cvar cvar_id) k.cvar_list) [
    | none ↦ pure error
    | some c ↦ do
      unblock 1 c.cvar_wait_list
      k ← get
      put (record k { cvar_list = remove_first (is_cvar cvar_id) k.cvar_list })
      pure (pos 0)
  ]
