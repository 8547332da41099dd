-- ===== src/Untouched/Switching.antt =====
-- What list handling of the scheduler and the switch between processes leave as it was.
use sc0x3a.Base.{ℕ, ◌+◌, Option, none, some, List, [], ◌∷◌, arith, ℤ, pos, error}
use sc0x3a.Kernel.{Pcb, Point, preempted, SleepInfo}
use sc0x3a.Kernel.Monad.{
  get, current, Keeps-mono, Keeps-of_Switches, put_ready, take_ready, malloc, insert_last,
}
use sc0x3a.Kernel.Frames.{grab_a_frame}
use sc0x3a.Scheduler.{
  init_proc_kernel, context_switch, next_ready, normal_schedule, do_scheduler, update_pcb,
  insert_sleep_list, insert_dead_list, wake_sleepers, update_sleep_list, unblock,
}
use sc0x3a.Quiet.{update_pcb-Silent}
use sc0x3a.Scheduler.Switch.{context_switch_lem}
use sc0x3a.Untouched.{
  Part, Still, Leaves, Leaves-of_Still, Leaves-of_Silent, Leaves-bind, Leaves-elim, Leaves-pure,
  Leaves-edit, Leaves-get, Leaves-current, Leaves-if, leaves_rules,
}

module _ (x : Part) where
  pub Leaves-put_ready : (p : ℕ) → Leaves x (put_ready p)
  unfolding put_ready malloc insert_last
  Leaves-put_ready p = Leaves-of_Still x (put_ready p) λ k. ground arith

  pub Leaves-update_pcb : (p : ℕ) (f : Pcb → Pcb) → Leaves x (update_pcb p f)
  Leaves-update_pcb p f = Leaves-of_Silent x (update_pcb p f) (update_pcb-Silent p f)

  take_ready-Leaves : Leaves x take_ready
  unfolding take_ready
  take_ready-Leaves = Leaves-of_Still x take_ready λ k. ground arith

  next_ready-Leaves : Leaves x next_ready
  unfolding next_ready
  next_ready-Leaves = Leaves-bind x take_ready _ take_ready-Leaves λ r.
      Leaves-elim x r _ _ (Leaves-pure x none)
        λ next. (search (leaves_rules, take_ready-Leaves, Leaves-put_ready) depth 12)

  pub Leaves-init_proc_kernel : (p : ℕ) → Leaves x (init_proc_kernel p)
  unfolding init_proc_kernel grab_a_frame
  Leaves-init_proc_kernel p = Leaves-of_Still x (init_proc_kernel p) λ k. ground arith

  context_switch-Leaves :
      (old : Option ℕ) (new : ℕ) (pt : Point) → Leaves x (context_switch old new pt)
  context_switch-Leaves old new pt = Leaves-of_Still x (context_switch old new pt) λ k.
      Keeps-mono _ (Still k) (context_switch old new pt k)
        (Keeps-of_Switches _ (context_switch old new pt k) (context_switch_lem old new pt k))
        λ k' (s, _). record {
          pids = s.pids;
          boot = s.boot;
          locks = s.locks;
          sems = s.sems;
          pipes = s.pipes;
        }

  pub Leaves-normal_schedule : (pt : Point) → Leaves x (normal_schedule pt)
  unfolding normal_schedule
  Leaves-normal_schedule pt = Leaves-bind x get _ (Leaves-get x) λ k.
      Leaves-if x _ _ _ (Leaves-pure x (pos 0)) (
        Leaves-bind x next_ready _ next_ready-Leaves λ r.
          Leaves-elim x r _ _ (Leaves-pure x error)
            λ next. context_switch-Leaves k.active_proc next pt)

  pub Leaves-do_scheduler : Leaves x do_scheduler
  unfolding do_scheduler
  Leaves-do_scheduler = Leaves-bind x get _ (Leaves-get x) λ k.
      Leaves-if x _ _ _ (Leaves-pure x (pos 0)) (
        Leaves-bind x current _ (Leaves-current x) λ old.
          Leaves-bind x (put_ready old) _ (Leaves-put_ready old) λ _.
            Leaves-bind x next_ready _ next_ready-Leaves λ r.
              Leaves-elim x r _ _ (Leaves-pure x error)
                λ next. context_switch-Leaves (some old) next preempted)

  pub Leaves-insert_sleep_list : (p : ℕ) (n : ℤ) → Leaves x (insert_sleep_list p n)
  unfolding insert_sleep_list update_pcb malloc insert_last
  Leaves-insert_sleep_list p n = Leaves-of_Still x (insert_sleep_list p n) λ k. ground arith

  pub Leaves-insert_dead_list : (q : ℤ) (p : ℕ) (n : ℤ) → Leaves x (insert_dead_list q p n)
  unfolding insert_dead_list malloc insert_last
  Leaves-insert_dead_list q p n = Leaves-of_Still x (insert_dead_list q p n) λ k. ground arith

  wake_sleepers-Leaves : (ss : List SleepInfo) → Leaves x (wake_sleepers ss)
  unfolding wake_sleepers
  wake_sleepers-Leaves [] = Leaves-pure x []
  wake_sleepers-Leaves (s ∷ ss) =
      search (leaves_rules, Leaves-put_ready, Leaves-update_pcb, wake_sleepers-Leaves ss) depth 12

  pub Leaves-update_sleep_list : Leaves x update_sleep_list
  unfolding update_sleep_list
  Leaves-update_sleep_list = Leaves-bind x get _ (Leaves-get x) λ k.
      Leaves-bind x (wake_sleepers k.sleep_list) _ (wake_sleepers-Leaves k.sleep_list) λ left.
        Leaves-edit x (λ k. record k { sleep_list = left }) _ (λ k. ground arith)
          λ k. Leaves-pure x (pos 0)

  pub Leaves-unblock : (j : ℕ) (ps : List ℕ) → Leaves x (unblock j ps)
  unfolding unblock
  Leaves-unblock j [] = Leaves-pure x []
  Leaves-unblock j (p ∷ ps) =
      search (leaves_rules, Leaves-put_ready, Leaves-unblock (j + 1) ps) depth 12
