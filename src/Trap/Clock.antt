-- ===== src/Trap/Clock.antt =====
-- Where the processes are around the trap of the clock.
use sc0x3a.Base.{
  ℕ, ◌+◌, ◌≡◌, refl, ap, ◌∙◌, some, List, [], ◌∷◌, ◌++◌, arith, count, count-append, Bool-cases,
  Option-cases, List-cases, inl, inr,
}
use sc0x3a.Kernel.{Kernel, SleepInfo, preempted}
use sc0x3a.Kernel.Monad.{Keeps, Keeps-bind, Keeps-of_Switches, Switches-mono}
use sc0x3a.Scheduler.{context_switch, do_scheduler}
use sc0x3a.Scheduler.Sleep.{is_over, over, still, make_ready, update_sleep_list_lem}
use sc0x3a.Scheduler.Choice.{choose, do_scheduler_eq, context_switch-Rescheduled}
use sc0x3a.Places.{count_in, count_active, sleepers}
use sc0x3a.Places.Counting.{Same, count-choose}
use sc0x3a.Trap.{trap_clock_hdl}

-- A sleeper either wakes or sleeps on.
over-still :
    (a : ℕ) (ss : List SleepInfo)
    → count_in sleepers a (still ss) + count a (over ss) ≡ count_in sleepers a ss
unfolding over still count_in
over-still a [] = refl
over-still a (s ∷ ss) = elim (Bool-cases (is_over s)) [
  | inl e ↦ ground (arith, over-still a ss)
  | inr e ↦ ground (arith, over-still a ss)
]

do_scheduler-Same : (a : ℕ) (k : Kernel) → k.mallocs ≡ [] → Keeps (Same a k) (do_scheduler k)
do_scheduler-Same a k m = elim (List-cases k.ready_queue) [
  | inl e ↦ unfold do_scheduler in ground (arith, e)
  | inr (x, xs, e) ↦ elim (Option-cases k.active_proc) [
    | inl nobody ↦ unfold do_scheduler in ground (arith, e)
    | inr (p, act) ↦
        let next = choose x (xs ++ p ∷ []) in
        rw (do_scheduler_eq x xs p k m act e) (
          Keeps-of_Switches (Same a k) _ (
            Switches-mono _ _
              (context_switch (some p) next.0 preempted (record k { ready_queue = next.1 }))
              (context_switch-Rescheduled (some p) next.0 preempted next.1 k)
              λ k' r.
                rw
                  (
                    r.active, r.ready, r.sleeping, r.waiting, r.io, r.pipes, r.locks, r.cvars,
                    r.sems,
                  )
                  (omega (
                    arith,
                    ap (count_active a) act,
                    ap (count a) e,
                    count-choose a x (xs ++ p ∷ []),
                    count-append a xs (p ∷ []),
                  ))))
  ]
]

-- Where `malloc` does not fail, a tick of the clock leaves every process in as many places as it was.
pub trap_clock_hdl-places :
    (a : ℕ) (k : Kernel) → k.mallocs ≡ [] → Keeps (Same a k) (trap_clock_hdl k)
unfolding trap_clock_hdl
trap_clock_hdl-places a k m =
    let k₁ = record k {
      sleep_list = still k.sleep_list;
      ready_queue = k.ready_queue ++ over k.sleep_list;
      pcbs = make_ready (over k.sleep_list) k.pcbs;
    } in
    let woken : Same a k k₁ =
      omega (arith, over-still a k.sleep_list, count-append a k.ready_queue (over k.sleep_list)) in
    rw (update_sleep_list_lem k m) (
      Keeps-bind (Same a k₁) (Same a k) (do_scheduler k₁) _ (do_scheduler-Same a k₁ m)
        (λ k₂ s. s ∙ woken) λ rc k₂ s. s ∙ woken)
