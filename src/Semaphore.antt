-- ===== src/Semaphore.antt =====
-- Semaphores: sys_Custom_0 (init), sys_Custom_1 (increment) and sys_Custom_2 (wait) of syscall.c.
mod Tests
pub mod Steps
pub mod Balance
use sc0x3a.Base.{
  ℕ, ◌+◌, ◌-◌, Bool, true, false, not, Option, none, some, List, [], ◌∷◌, if◌then◌else◌, length,
  find, update_first, ◌==◌, ℤ, pos, negsuc, ◌+ℤ◌, ◌-ℤ◌, eqb_ℤ, ltb_ℤ, leb_ℤ, to_int, error,
}
use sc0x3a.Kernel.{Kernel, Point, Semaphore}
use sc0x3a.Kernel.Monad.{
  M, done, crash, pure, ◌>>=◌, ◌>>◌, get, put, current, malloc, insert_last, put_ready,
}
use sc0x3a.Scheduler.{normal_schedule}
use sc0x3a.Lock.{malloc_at}

-- The result of the insertion into `sem_list` is not looked at.
unfoldable pub sys_Custom_0 : M ℤ
unfolding malloc malloc_at insert_last
sys_Custom_0 = do
  s ← malloc_at
  elim s [
    | none ↦ pure error
    | some addr ↦ do
      k ← get
      put (record k { next_sem = k.next_sem + 1 })
      h ← malloc
      if not h then pure error else do
        b ← malloc
        k' ← get
        let sem : Semaphore = record { addr = addr; id = k.next_sem; count = pos 0; waiting = [] }
        put (record k' { sem_list = (insert_last k'.sem_list sem b).0 })
        pure (pos k.next_sem)
  ]

abbrev pub is_sem : ℤ → Semaphore → Bool
is_sem id s = eqb_ℤ (pos s.id) id

-- The loops of sys_Custom_1 and sys_Custom_2 take `nod->data` of each node that list_index returns,
-- of NULL too where the list holds no such semaphore.
unfoldable pub find_sem : M Semaphore
find_sem = do
  k ← get
  elim (find (is_sem (to_int k.uctxt.reg0)) k.sem_list) [ none ↦ crash | some s ↦ pure s ]

abbrev pub set_sem : Kernel → (Semaphore → Semaphore) → Kernel
set_sem k f = record k { sem_list = update_first (is_sem (to_int k.uctxt.reg0)) f k.sem_list }

unfoldable pub sys_Custom_1 : M ℤ
unfolding find_sem put_ready
sys_Custom_1 = do
  s ← find_sem
  k ← get
  let n = s.count +ℤ pos 1
  put (set_sem k (λ s. record s { count = n }))
  if leb_ℤ n (pos 0)
      then elim s.waiting [
        | [] ↦ pure (pos 0)
        | p ∷ ps ↦ do
          k ← get
          put (set_sem k (λ s. record s { waiting = ps }))
          put_ready p
          pure (pos 0)
      ]
      else pure (pos 0)

unfoldable pub sys_Custom_2 : M ℤ
unfolding find_sem malloc insert_last
sys_Custom_2 = do
  s ← find_sem
  k ← get
  let n = s.count -ℤ pos 1
  put (set_sem k (λ s. record s { count = n }))
  if ltb_ℤ n (pos 0)
      then (do
        p ← current
        b ← malloc
        k ← get
        put (set_sem k (λ s. record s { waiting = (insert_last s.waiting p b).0 }))
        rc ← normal_schedule Point.sem_wait
        pure (if eqb_ℤ rc error then error else pos 0))
      else pure (pos 0)
