-- ===== src/Semaphore/Steps.antt =====
-- What the calls of a semaphore do, branch by branch, where `malloc` does not fail.
use sc0x3a.Base.{
  ℕ, ◌+◌, ◌≡◌, refl, true, false, none, some, List, [], ◌∷◌, ◌++◌, arith, find, update_first_twice,
  ℤ, pos, error, to_int, ltb_ℤ, leb_ℤ, eqb_ℤ, if◌then◌else◌, ◌+ℤ◌, ◌-ℤ◌,
}
use sc0x3a.Kernel.{Kernel, Semaphore, sem_wait}
use sc0x3a.Kernel.Monad.{
  done, fault, and_then, insert_last, pure, put_ready_lem, malloc_lem, current_lem,
}
use sc0x3a.Scheduler.{normal_schedule}
use sc0x3a.Lock.{malloc_at_lem}
use sc0x3a.Semaphore.{sys_Custom_0, sys_Custom_1, sys_Custom_2, find_sem, is_sem, set_sem}

-- The semaphore with that count, and its waiters.
abbrev pub with_count : ℤ → Semaphore → Semaphore
with_count n s = record s { count = n }

abbrev pub with_waiting : List ℕ → Semaphore → Semaphore
with_waiting ws s = record s { waiting = ws }

module _ (k : Kernel) (m : k.mallocs ≡ []) where
  abbrev pub new_sem : Semaphore
  new_sem = record { addr = k.fresh; id = k.next_sem; count = pos 0; waiting = [] }

  pub sys_Custom_0_eq :
      sys_Custom_0 k
      ≡ done (pos k.next_sem) (record k {
        fresh = k.fresh + 1;
        next_sem = k.next_sem + 1;
        sem_list = k.sem_list ++ new_sem ∷ [];
      })
  unfolding sys_Custom_0 insert_last
  sys_Custom_0_eq =
      let k₁ = record k { fresh = k.fresh + 1; next_sem = k.next_sem + 1 } in
      rw (malloc_at_lem k m, malloc_lem k₁ m, malloc_lem k₁ m)

abbrev pub sem_id : Kernel → ℤ
sem_id k = to_int k.uctxt.reg0

pub sys_Custom_1-missing :
    (k : Kernel) → find (is_sem (sem_id k)) k.sem_list ≡ none → sys_Custom_1 k ≡ fault
unfolding sys_Custom_1 find_sem
sys_Custom_1-missing k e = ground arith

pub sys_Custom_2-missing :
    (k : Kernel) → find (is_sem (sem_id k)) k.sem_list ≡ none → sys_Custom_2 k ≡ fault
unfolding sys_Custom_2 find_sem
sys_Custom_2-missing k e = ground arith

module _ (k : Kernel) (m : k.mallocs ≡ []) (s : Semaphore)
    (e : find (is_sem (sem_id k)) k.sem_list ≡ some s) where
  find_sem_lem : find_sem k ≡ done s k
  unfolding find_sem
  find_sem_lem = ground arith

  pub sys_Custom_1-none :
      leb_ℤ (s.count +ℤ pos 1) (pos 0) ≡ false
      → sys_Custom_1 k ≡ done (pos 0) (set_sem k (with_count (s.count +ℤ pos 1)))
  unfolding sys_Custom_1
  sys_Custom_1-none c = rw (find_sem_lem, c)

  pub sys_Custom_1-empty :
      leb_ℤ (s.count +ℤ pos 1) (pos 0) ≡ true
      → s.waiting ≡ []
      → sys_Custom_1 k ≡ done (pos 0) (set_sem k (with_count (s.count +ℤ pos 1)))
  unfolding sys_Custom_1
  sys_Custom_1-empty c w = rw (find_sem_lem, c, w)

  pub sys_Custom_1-wake :
      (q : ℕ) (qs : List ℕ)
      → leb_ℤ (s.count +ℤ pos 1) (pos 0) ≡ true
      → s.waiting ≡ q ∷ qs
      → sys_Custom_1 k
        ≡ done
            (pos 0)
            (record (set_sem k (λ t. with_waiting qs (with_count (s.count +ℤ pos 1) t))) {
              ready_queue = k.ready_queue ++ q ∷ [];
            })
  unfolding sys_Custom_1
  sys_Custom_1-wake q qs c w = rw (
    find_sem_lem,
    c,
    w,
    put_ready_lem q (set_sem (set_sem k (with_count (s.count +ℤ pos 1))) (with_waiting qs)) m,
    update_first_twice (is_sem (sem_id k)) (with_count (s.count +ℤ pos 1)) (with_waiting qs)
        k.sem_list (λ t. refl),
  )

  pub sys_Custom_2-free :
      ltb_ℤ (s.count -ℤ pos 1) (pos 0) ≡ false
      → sys_Custom_2 k ≡ done (pos 0) (set_sem k (with_count (s.count -ℤ pos 1)))
  unfolding sys_Custom_2
  sys_Custom_2-free c = rw (find_sem_lem, c)

  -- The state in which a process that waits has entered itself.
  abbrev pub queued_for_sem : ℕ → Kernel
  queued_for_sem p =
      set_sem k (λ t. record t { count = s.count -ℤ pos 1; waiting = t.waiting ++ p ∷ [] })

  pub sys_Custom_2-wait :
      (p : ℕ)
      → k.active_proc ≡ some p
      → ltb_ℤ (s.count -ℤ pos 1) (pos 0) ≡ true
      → sys_Custom_2 k
        ≡ and_then
            (normal_schedule sem_wait (queued_for_sem p))
            (λ rc. pure (if eqb_ℤ rc error then error else pos 0))
  unfolding sys_Custom_2 insert_last
  sys_Custom_2-wait p a c =
      let k₁ = set_sem k (with_count (s.count -ℤ pos 1)) in
      rw (
        find_sem_lem,
        c,
        current_lem k₁ p a,
        malloc_lem k₁ m,
        update_first_twice (is_sem (sem_id k)) (with_count (s.count -ℤ pos 1))
            (λ t. record t { waiting = t.waiting ++ p ∷ [] }) k.sem_list (λ t. refl),
      )
