-- ===== src/Places/Semaphores.antt =====
-- Where the processes are around the calls of a semaphore: sys_Custom_1 and sys_Custom_2.
use sc0x3a.Base.{
  ℕ, ◌≡◌, ap, inl, inr, some, List, [], ◌∷◌, ◌++◌, if◌then◌else◌, arith, count, count-append, find,
  pos, ltb_ℤ, leb_ℤ, eqb_ℤ, error, Bool-cases, Option-cases, List-cases, ◌+ℤ◌, ◌-ℤ◌,
}
use sc0x3a.Kernel.{Kernel, Semaphore, sem_wait}
use sc0x3a.Kernel.Monad.{Keeps, pure}
use sc0x3a.Semaphore.{sys_Custom_1, sys_Custom_2, is_sem}
use sc0x3a.Semaphore.Steps.{
  sem_id, with_count, with_waiting, sys_Custom_1-missing, sys_Custom_1-none, sys_Custom_1-empty,
  sys_Custom_1-wake, sys_Custom_2-missing, sys_Custom_2-free, sys_Custom_2-wait, queued_for_sem,
}
use sc0x3a.Places.{count_active, sem_waiters}
use sc0x3a.Places.Counting.{Same, block-Same, count_in-update_first}

-- Where `malloc` does not fail, the increment of a semaphore leaves every process in as many places as
-- it was.
pub sys_Custom_1-places : (a : ℕ) (k : Kernel) → k.mallocs ≡ [] → Keeps (Same a k) (sys_Custom_1 k)
sys_Custom_1-places a k m = elim (Option-cases (find (is_sem (sem_id k)) k.sem_list)) [
  | inl e ↦ rw (sys_Custom_1-missing k e) tt
  | inr (s, e) ↦
      let n = s.count +ℤ pos 1 in
      let changed = λ (g : Semaphore → Semaphore).
        count_in-update_first sem_waiters a (is_sem (sem_id k)) g s k.sem_list e in
      elim (Bool-cases (leb_ℤ n (pos 0))) [
        | inr c ↦ rw (sys_Custom_1-none k m s e c) (omega (arith, changed (with_count n)))
        | inl c ↦ elim (List-cases s.waiting) [
          | inl w ↦ rw (sys_Custom_1-empty k m s e c w) (omega (arith, changed (with_count n)))
          | inr (q, qs, w) ↦ rw (sys_Custom_1-wake k m s e q qs c w) (
              omega (
                arith,
                ap (count a) w,
                changed (λ t. with_waiting qs (with_count n t)),
                count-append a k.ready_queue (q ∷ []),
              ))
        ]
      ]
]

-- Where `malloc` does not fail and another process is ready, the wait for a semaphore leaves every
-- process in as many places as it was.
pub sys_Custom_2-places :
    (a p x : ℕ) (xs : List ℕ) (k : Kernel)
    → k.mallocs ≡ []
    → k.active_proc ≡ some p
    → k.ready_queue ≡ x ∷ xs
    → Keeps (Same a k) (sys_Custom_2 k)
sys_Custom_2-places a p x xs k m act r = elim (Option-cases (find (is_sem (sem_id k)) k.sem_list)) [
  | inl e ↦ rw (sys_Custom_2-missing k e) tt
  | inr (s, e) ↦
      let n = s.count -ℤ pos 1 in
      let changed = λ (g : Semaphore → Semaphore).
        count_in-update_first sem_waiters a (is_sem (sem_id k)) g s k.sem_list e in
      elim (Bool-cases (ltb_ℤ n (pos 0))) [
        | inr c ↦ rw (sys_Custom_2-free k m s e c) (omega (arith, changed (with_count n)))
        | inl c ↦ rw (sys_Custom_2-wait k m s e p act c) (
            block-Same a x xs sem_wait k (queued_for_sem k m s e p)
              (λ rc. pure (if eqb_ℤ rc error then error else pos 0)) m r
              (omega (
                arith,
                ap (count_active a) act,
                count-append a s.waiting (p ∷ []),
                changed (λ t. record t { count = n; waiting = t.waiting ++ p ∷ [] }),
              )))
      ]
]
