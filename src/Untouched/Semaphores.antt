-- ===== src/Untouched/Semaphores.antt =====
-- What the calls of semaphores leave as it was.
use sc0x3a.Base.{◌≡◌, Bool, true, false, List, arith, pos, ◌-ℤ◌, eqb_ℤ, error, if◌then◌else◌}
use sc0x3a.Kernel.{Kernel, Semaphore, sem_wait}
use sc0x3a.Kernel.Monad.{
  M, Keeps, Keeps-mono, get, put, current, malloc, insert_last, put_ready, ◌>>=◌,
}
use sc0x3a.Scheduler.{normal_schedule}
use sc0x3a.Lock.{malloc_at}
use sc0x3a.Semaphore.{sys_Custom_0, find_sem, set_sem, sys_Custom_1, sys_Custom_2}
use sc0x3a.Untouched.{
  Part, pids, boot, locks, sems, pipes, fits, balanced, drains, held, Kept, Leaves, Leaves-of_Still,
  Leaves-bind, Leaves-modify, Leaves-pure, Leaves-if, Leaves-current, Leaves-malloc,
}
use sc0x3a.Untouched.Switching.{Leaves-normal_schedule}

-- All but the semaphores is as it was.
pub record StillButSems (k k' : Kernel) : Type 0 where
  pub pids : k'.next_pid ≡ k.next_pid
  pub boot : k'.boot ≡ k.boot
  pub locks : k'.lock_list ≡ k.lock_list
  pub pipes : k'.pipe_list ≡ k.pipe_list

abbrev pub not_sems : Part → Bool
not_sems sems = false
not_sems balanced = false
not_sems _ = true

Kept-of_StillButSems :
    (x : Part) (k k' : Kernel) → not_sems x ≡ true → StillButSems k k' → Kept x k k'
unfolding Kept
Kept-of_StillButSems pids k k' t s = s.pids
Kept-of_StillButSems boot k k' t s = s.boot
Kept-of_StillButSems locks k k' t s = s.locks
Kept-of_StillButSems sems k k' t s = absurd (cc)
Kept-of_StillButSems pipes k k' t s = s.pipes
Kept-of_StillButSems fits k k' t s = λ h. rw (s.pipes) h
Kept-of_StillButSems balanced k k' t s = absurd (cc)
Kept-of_StillButSems (drains id cs) k k' t s = λ h. rw (s.pipes) h
Kept-of_StillButSems (held n q) k k' t s = λ h. rw (s.locks) h

module _ (x : Part) (t : not_sems x ≡ true) where
  but_sems : {A : Type 0} (m : M A) → ((k : Kernel) → Keeps (StillButSems k) (m k)) → Leaves x m
  unfolding Leaves
  but_sems m s k =
      Keeps-mono (StillButSems k) (Kept x k) (m k) (s k) λ k'. Kept-of_StillButSems x k k' t

  pub Leaves-sys_Custom_0 : Leaves x sys_Custom_0
  unfolding sys_Custom_0 malloc malloc_at insert_last
  Leaves-sys_Custom_0 = but_sems sys_Custom_0 λ k. ground arith

  pub Leaves-sys_Custom_1 : Leaves x sys_Custom_1
  unfolding sys_Custom_1 find_sem put_ready malloc insert_last
  Leaves-sys_Custom_1 = but_sems sys_Custom_1 λ k. ground arith

  find_sem-Leaves : Leaves x find_sem
  unfolding find_sem
  find_sem-Leaves = Leaves-of_Still x find_sem λ k. ground arith

  edit_sems :
      {A : Type 0} (g : Kernel → List Semaphore) (m : Kernel → M A)
      → ((k : Kernel) → Leaves x (m k))
      → Leaves x (get >>= λ k. put (record k { sem_list = g k }) >>= λ _. m k)
  edit_sems g m s =
      Leaves-modify x (λ k. record k { sem_list = g k }) m
        (λ k. Kept-of_StillButSems x k (record k { sem_list = g k }) t (ground arith)) s

  pub Leaves-sys_Custom_2 : Leaves x sys_Custom_2
  unfolding sys_Custom_2
  Leaves-sys_Custom_2 = Leaves-bind x find_sem _ find_sem-Leaves λ s.
      edit_sems (λ k. (set_sem k (λ s'. record s' { count = s.count -ℤ pos 1 })).sem_list) _
        λ k.
          Leaves-if x _ _ _
            (Leaves-bind x current _ (Leaves-current x) λ p.
              Leaves-bind x malloc _ (Leaves-malloc x) λ b.
                edit_sems
                  (λ k.
                    (set_sem k
                      (λ s. record s { waiting = (insert_last s.waiting p b).0 })).sem_list)
                  _
                  λ k.
                    Leaves-bind x (normal_schedule sem_wait) _ (Leaves-normal_schedule x sem_wait)
                      λ rc. Leaves-pure x (if eqb_ℤ rc error then error else pos 0))
            (Leaves-pure x (pos 0))
