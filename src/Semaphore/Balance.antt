-- ===== src/Semaphore/Balance.antt =====
-- The count of a semaphore against the number of processes that wait for it.
use sc0x3a.Base.{
  ℕ, ◌+◌, ◌≡◌, refl, true, false, some, List, [], ◌∷◌, ◌++◌, arith, length, length-append, find, ℤ,
  pos, negsuc, neg_part, ltb_ℤ, leb_ℤ, ap, ◌+ℤ◌, ◌-ℤ◌, All, All-append, All-find, All-update_first,
  Bool-cases, List-cases, Option-cases, inl, inr,
}
use sc0x3a.Kernel.{Kernel, Semaphore, sem_wait}
use sc0x3a.Kernel.Monad.{M, done, and_then, Keeps, Keeps-of_Switches, Switches-bind, Switches-mono}
use sc0x3a.Scheduler.{normal_schedule, context_switch}
use sc0x3a.Scheduler.Choice.{choose, context_switch-Rescheduled, normal_schedule_eq}
use sc0x3a.Semaphore.{sys_Custom_0, sys_Custom_1, sys_Custom_2, is_sem, set_sem}
use sc0x3a.Semaphore.Steps.{
  with_count, with_waiting, sem_id, new_sem, sys_Custom_0_eq, sys_Custom_1-missing,
  sys_Custom_2-missing, sys_Custom_1-none, sys_Custom_1-wake, sys_Custom_2-free, sys_Custom_2-wait,
  queued_for_sem,
}

abbrev pub Counted : Semaphore → Type 0
Counted s = neg_part s.count ≡ length s.waiting

abbrev pub Balanced : Kernel → Type 0
Balanced k = All Counted k.sem_list

wake_count :
    (n : ℤ) (len : ℕ)
    → leb_ℤ (n +ℤ pos 1) (pos 0) ≡ true
    → neg_part n ≡ len
    → neg_part (n +ℤ pos 1) + 1 ≡ len
wake_count (pos n) len c e = ground arith
wake_count (negsuc n) len c e = ground arith

count_up : (n : ℤ) → leb_ℤ (n +ℤ pos 1) (pos 0) ≡ false → neg_part (n +ℤ pos 1) ≡ neg_part n
count_up (pos n) c = ground arith
count_up (negsuc n) c = ground arith

count_down : (n : ℤ) → ltb_ℤ (n -ℤ pos 1) (pos 0) ≡ false → neg_part (n -ℤ pos 1) ≡ neg_part n
count_down (pos n) c = ground arith
count_down (negsuc n) c = ground arith

wait_count : (n : ℤ) → ltb_ℤ (n -ℤ pos 1) (pos 0) ≡ true → neg_part (n -ℤ pos 1) ≡ neg_part n + 1
wait_count (pos n) c = ground arith
wait_count (negsuc n) c = ground arith

waiting-leb : (n : ℤ) (len : ℕ) → neg_part n ≡ len + 1 → leb_ℤ (n +ℤ pos 1) (pos 0) ≡ true
waiting-leb (pos n) len e = ground arith
waiting-leb (negsuc n) len e = ground arith

-- A process that gives the processor away keeps all semaphores as they are.
block-Balanced :
    {B : Type 0} (x : ℕ) (xs : List ℕ) (k : Kernel) (f : ℤ → M B)
    → k.mallocs ≡ []
    → k.ready_queue ≡ x ∷ xs
    → Balanced k
    → Keeps Balanced (and_then (normal_schedule sem_wait k) f)
block-Balanced x xs k f m e b = rw (normal_schedule_eq sem_wait x xs k m e) (
    Keeps-of_Switches Balanced
      (and_then
        (context_switch k.active_proc (choose x xs).0 sem_wait
          (record k { ready_queue = (choose x xs).1 }))
        f)
      (Switches-bind Balanced
        (context_switch k.active_proc (choose x xs).0 sem_wait
          (record k { ready_queue = (choose x xs).1 }))
        f
        (Switches-mono _ Balanced
          (context_switch k.active_proc (choose x xs).0 sem_wait
            (record k { ready_queue = (choose x xs).1 }))
          (context_switch-Rescheduled k.active_proc (choose x xs).0 sem_wait (choose x xs).1 k)
          λ k' r. rw (r.sems) b)))

module _ (k : Kernel) (m : k.mallocs ≡ []) (b : Balanced k) where
  pub sys_Custom_0-Balanced : Keeps Balanced (sys_Custom_0 k)
  sys_Custom_0-Balanced =
      rw (sys_Custom_0_eq k m) (All-append Counted k.sem_list (new_sem k m ∷ []) b (refl, tt))

  -- Where `malloc` does not fail, the increment of a semaphore keeps all semaphores balanced.
  pub sys_Custom_1-Balanced : Keeps Balanced (sys_Custom_1 k)
  sys_Custom_1-Balanced = elim (Option-cases (find (is_sem (sem_id k)) k.sem_list)) [
    | inl e ↦ rw (sys_Custom_1-missing k e) tt
    | inr (s, e) ↦
        let counted = All-find Counted (is_sem (sem_id k)) s k.sem_list b e in
        elim (Bool-cases (leb_ℤ (s.count +ℤ pos 1) (pos 0))) [
          | inr c ↦ rw (sys_Custom_1-none k m s e c) (
              All-update_first Counted (is_sem (sem_id k)) (with_count (s.count +ℤ pos 1)) s
                k.sem_list b e (omega (arith, count_up s.count c, counted)))
          | inl c ↦ elim (List-cases s.waiting) [
            | inl w ↦
                absurd (omega (arith, wake_count s.count (length s.waiting) c counted, ap length w))
            | inr (q, qs, w) ↦ rw (sys_Custom_1-wake k m s e q qs c w) (
                All-update_first Counted (is_sem (sem_id k))
                  (λ t. with_waiting qs (with_count (s.count +ℤ pos 1) t)) s k.sem_list b e
                  (omega (arith, wake_count s.count (length s.waiting) c counted, ap length w)))
          ]
        ]
  ]

  -- Where all semaphores are balanced and `malloc` does not fail, an increment wakes the first process
  -- that waits, whenever there is one.
  pub sys_Custom_1-wakes :
      (s : Semaphore) (q : ℕ) (qs : List ℕ)
      → find (is_sem (sem_id k)) k.sem_list ≡ some s
      → s.waiting ≡ q ∷ qs
      → sys_Custom_1 k
        ≡ done
            (pos 0)
            (record (set_sem k (λ t. with_waiting qs (with_count (s.count +ℤ pos 1) t))) {
              ready_queue = k.ready_queue ++ q ∷ [];
            })
  sys_Custom_1-wakes s q qs e w =
      let counted = All-find Counted (is_sem (sem_id k)) s k.sem_list b e in
      sys_Custom_1-wake k m s e q qs
        (waiting-leb s.count (length qs) (omega (arith, counted, ap length w))) w

  -- Where `malloc` does not fail and another process is ready, the wait for a semaphore keeps all
  -- semaphores balanced.
  pub sys_Custom_2-Balanced :
      (p x : ℕ) (xs : List ℕ)
      → k.active_proc ≡ some p
      → k.ready_queue ≡ x ∷ xs
      → Keeps Balanced (sys_Custom_2 k)
  sys_Custom_2-Balanced p x xs a r = elim (Option-cases (find (is_sem (sem_id k)) k.sem_list)) [
    | inl e ↦ rw (sys_Custom_2-missing k e) tt
    | inr (s, e) ↦
        let counted = All-find Counted (is_sem (sem_id k)) s k.sem_list b e in
        elim (Bool-cases (ltb_ℤ (s.count -ℤ pos 1) (pos 0))) [
          | inr c ↦ rw (sys_Custom_2-free k m s e c) (
              All-update_first Counted (is_sem (sem_id k)) (with_count (s.count -ℤ pos 1)) s
                k.sem_list b e (omega (arith, count_down s.count c, counted)))
          | inl c ↦ rw (sys_Custom_2-wait k m s e p a c) (
              block-Balanced x xs (queued_for_sem k m s e p) _ m r (
                All-update_first Counted (is_sem (sem_id k))
                  (λ t. record t { count = s.count -ℤ pos 1; waiting = t.waiting ++ p ∷ [] }) s
                  k.sem_list b e
                  (omega (arith, wait_count s.count c, counted, length-append s.waiting (p ∷ [])))))
        ]
  ]
