-- ===== src/Lock/Tests.antt =====
-- The properties of locks at a kernel with two of them: lock 1 is process 3's, lock 2 is free.
use sc0x3a.Base.{ℕ, suc, ◌≡◌, refl, true, false, some, [], ◌∷◌, pos, find, inl, arith}
use sc0x3a.Kernel.{Kernel, LockInfo}
use sc0x3a.Kernel.Monad.{Does, ◌>>◌}
use sc0x3a.Scheduler.Choice.{GivesTo, choose}
use sc0x3a.Samples.{two_processes, context}
use sc0x3a.Lock.{sys_Acquire, sys_Release, lock_at, asked_lock}
use sc0x3a.Lock.Exclusion.{with_waiter, freed, sys_Acquire-excludes, sys_Acquire-sys_Release}

abbrev taken : LockInfo
taken = record { addr = 40; lockid = 1; locked = true; pid = 3; lock_wait_list = [] }

abbrev idle_lock : LockInfo
idle_lock = record { addr = 48; lockid = 2; locked = false; pid = 0; lock_wait_list = [] }

abbrev machine : ℕ → Kernel
machine id = record (two_processes (context id 0 0)) { lock_list = taken ∷ idle_lock ∷ [] }

sys_Acquire-excludes_example :
    GivesTo
      (λ k'.
        (find (lock_at 40) k'.lock_list ≡ some (with_waiter 2 taken))
        × (k'.active_proc ≡ some (choose 1 (3 ∷ [])).0))
      (sys_Acquire (suc 0) (pos 0) false (machine 1))
sys_Acquire-excludes_example =
    sys_Acquire-excludes (machine 1) refl 2 refl (pos 0) false refl taken refl refl 0 1 (3 ∷ [])
      refl refl (inl (omega arith))

sys_Acquire-sys_Release_example :
    Does
      (λ rc k'.
        (rc ≡ pos 0)
        × (find (lock_at 48) k'.lock_list ≡ some (freed idle_lock))
        × (k'.ready_queue ≡ (machine 2).ready_queue))
      ((do sys_Acquire (suc 0) (pos 0) false; sys_Release (asked_lock (pos 0) (machine 2)))
        (machine 2))
sys_Acquire-sys_Release_example =
    sys_Acquire-sys_Release (machine 2) refl 2 refl (pos 0) false refl idle_lock refl refl 0 refl
      refl
