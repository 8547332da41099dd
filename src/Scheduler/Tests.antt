-- ===== src/Scheduler/Tests.antt =====
-- The scheduler's properties at a kernel of three processes.
use sc0x3a.Base.{◌≡◌, refl, inl, [], ◌∷◌, ◌++◌, arith, pos}
use sc0x3a.Kernel.{Kernel, Point}
use sc0x3a.Kernel.Monad.{done, Does}
use sc0x3a.Samples.{two_processes, context}
use sc0x3a.Scheduler.{normal_schedule, do_scheduler, update_sleep_list}
use sc0x3a.Scheduler.Choice.{choose, GivesTo, Rescheduled, normal_schedule_lem, do_scheduler_lem}
use sc0x3a.Scheduler.Sleep.{
  still, over, make_ready, due_from, ticks, update_sleep_list_lem, ticks-due,
}

abbrev machine : Kernel
machine = two_processes (context 0 0 0)

abbrev sleeping : Kernel
sleeping = record machine {
  sleep_list = record { ticks_left = pos 2; pcb = 4 } ∷ record { ticks_left = pos 1; pcb = 5 } ∷ [];
}

-- Process 3 runs, since process 1 is idle.
runs_next : (choose 1 (3 ∷ [])).0 ≡ 3
unfolding choose
runs_next = refl

normal_schedule_lem_example :
    GivesTo
      (Rescheduled machine (choose 1 (3 ∷ [])).0 (choose 1 (3 ∷ [])).1)
      (normal_schedule Point.delayed machine)
normal_schedule_lem_example =
    normal_schedule_lem Point.delayed 1 (3 ∷ []) machine refl refl (inl (omega arith))

do_scheduler_lem_example :
    GivesTo
      (Rescheduled machine (choose 1 (3 ∷ 2 ∷ [])).0 (choose 1 (3 ∷ 2 ∷ [])).1)
      (do_scheduler machine)
do_scheduler_lem_example = do_scheduler_lem 1 (3 ∷ []) 2 machine refl refl refl (inl (omega arith))

update_sleep_list_lem_example :
    update_sleep_list sleeping
    ≡ done (pos 0) (record sleeping {
      sleep_list = still sleeping.sleep_list;
      ready_queue = sleeping.ready_queue ++ over sleeping.sleep_list;
      pcbs = make_ready (over sleeping.sleep_list) sleeping.pcbs;
    })
update_sleep_list_lem_example = update_sleep_list_lem sleeping refl

ticks-due_example :
    Does
      (λ rc k'. k'.ready_queue ≡ sleeping.ready_queue ++ due_from 1 2 sleeping.sleep_list)
      (ticks 2 sleeping)
ticks-due_example = ticks-due 2 sleeping refl ((1, refl), ((0, refl), tt))

-- Process 5 is due at the first tick, process 4 at the second.
due_in_two : due_from 1 2 sleeping.sleep_list ≡ 5 ∷ 4 ∷ []
unfolding due_from
due_in_two = refl
