-- ===== src/Scheduler/Choice.antt =====
-- Which process the scheduler gives the processor to.
use sc0x3a.Base.{ℕ, ◌≡◌, ◌≢◌, refl, Option, some, List, [], ◌∷◌, ◌++◌, ◌==◌, if◌then◌else◌, arith}
use sc0x3a.Kernel.{Kernel, Point, preempted}
use sc0x3a.Kernel.Monad.{
  and_then, Outcome, done, switched, fault, out_of_fuel, Switches, Switches-mono, malloc,
  insert_last, put_ready, take_ready,
}
use sc0x3a.Scheduler.{context_switch, next_ready, normal_schedule, do_scheduler}
use sc0x3a.Scheduler.Switch.{CanRun, context_switch_lem, context_switch-CanRun}

-- The queue's first process, or the second where the first is idle, and the queue without it; idle
-- goes to the end.
unfoldable pub choose : ℕ → List ℕ → ℕ × List ℕ
choose x [] = (x, [])
choose x (y ∷ ys) = if x == 1 then (y, ys ++ 1 ∷ []) else (x, y ∷ ys)

-- The processor is given away, and then the state satisfies `P`.
abbrev pub GivesTo : {A : Type 0} → (Kernel → Type 0) → Outcome A → Type 0
GivesTo P (done a k) = ⊥
GivesTo P (switched k) = P k
GivesTo P fault = ⊥
GivesTo P out_of_fuel = ⊥

pub GivesTo-bind :
    {A B : Type 0} (P : Kernel → Type 0) (r : Outcome A) (f : A → Kernel → Outcome B)
    → GivesTo P r
    → GivesTo P (and_then r f)
GivesTo-bind P (done a k) f p = absurd p
GivesTo-bind P (switched k) f p = p
GivesTo-bind P fault f p = absurd p
GivesTo-bind P out_of_fuel f p = absurd p

pub GivesTo-mono :
    {A : Type 0} (P Q : Kernel → Type 0) (r : Outcome A)
    → GivesTo P r
    → ((k : Kernel) → P k → Q k)
    → GivesTo Q r
GivesTo-mono P Q (done a k) p weaken = absurd p
GivesTo-mono P Q (switched k) p weaken = weaken k p
GivesTo-mono P Q fault p weaken = absurd p
GivesTo-mono P Q out_of_fuel p weaken = absurd p

-- `k'` has the same lists as `k` but for the ready queue.
pub record Rescheduled (k : Kernel) (p : ℕ) (queue : List ℕ) (k' : Kernel) : Type 0 where
  pub active : k'.active_proc ≡ some p
  pub ready : k'.ready_queue ≡ queue
  pub sleeping : k'.sleep_list ≡ k.sleep_list
  pub waiting : k'.wait_list ≡ k.wait_list
  pub io : k'.io_list ≡ k.io_list
  pub dead : k'.dead_list ≡ k.dead_list
  pub pipes : k'.pipe_list ≡ k.pipe_list
  pub locks : k'.lock_list ≡ k.lock_list
  pub cvars : k'.cvar_list ≡ k.cvar_list
  pub sems : k'.sem_list ≡ k.sem_list
  pub memory : k'.mallocs ≡ k.mallocs
  pub busy : k'.busy_terminal ≡ k.busy_terminal
  pub sent : k'.sent ≡ k.sent

pub next_ready_lem :
    (x : ℕ) (xs : List ℕ) (k : Kernel)
    → k.mallocs ≡ []
    → k.ready_queue ≡ x ∷ xs
    → next_ready k ≡ done (some (choose x xs).0) (record k { ready_queue = (choose x xs).1 })
unfolding next_ready choose take_ready put_ready
next_ready_lem x [] k m e = ground arith
next_ready_lem x (y ∷ ys) k m e = ground arith

GivesTo-of_Switches :
    {A : Type 0} (P : Kernel → Type 0) (r : Outcome A) → Switches P r → r ≢ fault → GivesTo P r
GivesTo-of_Switches P (done a k) s ne = s
GivesTo-of_Switches P (switched k) s ne = s
GivesTo-of_Switches P fault s ne = absurd (ne refl)
GivesTo-of_Switches P out_of_fuel s ne = s

pub context_switch-Rescheduled :
    (old : Option ℕ) (p : ℕ) (pt : Point) (queue : List ℕ) (k : Kernel)
    → Switches (Rescheduled k p queue) (context_switch old p pt (record k { ready_queue = queue }))
context_switch-Rescheduled old p pt queue k =
    Switches-mono _ _ (context_switch old p pt (record k { ready_queue = queue }))
      (context_switch_lem old p pt (record k { ready_queue = queue })) λ k' s. ground arith

pub normal_schedule_eq :
    (pt : Point) (x : ℕ) (xs : List ℕ) (k : Kernel)
    → k.mallocs ≡ []
    → k.ready_queue ≡ x ∷ xs
    → normal_schedule pt k
      ≡ context_switch k.active_proc (choose x xs).0 pt (record k { ready_queue = (choose x xs).1 })
unfolding normal_schedule
normal_schedule_eq pt x xs k m e = ground (arith, next_ready_lem x xs k)

-- Where `malloc` does not fail and the chosen process has a kernel stack or finds frames for one, a
-- process that blocks with `x ∷ xs` ready gives the processor to the first of the ready queue, or to the second where
-- the first is idle and not alone, and idle goes to the queue's end; nothing else is moved.
pub normal_schedule_lem :
    (pt : Point) (x : ℕ) (xs : List ℕ) (k : Kernel)
    → k.mallocs ≡ []
    → k.ready_queue ≡ x ∷ xs
    → CanRun k (choose x xs).0
    → GivesTo (Rescheduled k (choose x xs).0 (choose x xs).1) (normal_schedule pt k)
normal_schedule_lem pt x xs k m e can = rw (normal_schedule_eq pt x xs k m e) (
    GivesTo-of_Switches _ _
      (context_switch-Rescheduled k.active_proc (choose x xs).0 pt (choose x xs).1 k)
      (context_switch-CanRun k.active_proc (choose x xs).0 pt
        (record k { ready_queue = (choose x xs).1 }) can))

pub do_scheduler_eq :
    (x : ℕ) (xs : List ℕ) (p : ℕ) (k : Kernel)
    → k.mallocs ≡ []
    → k.active_proc ≡ some p
    → k.ready_queue ≡ x ∷ xs
    → let next = choose x (xs ++ p ∷ []) in
      do_scheduler k ≡ context_switch (some p) next.0 preempted (record k { ready_queue = next.1 })
unfolding do_scheduler put_ready malloc insert_last
do_scheduler_eq x xs p k m a e =
    ground (
      arith,
      next_ready_lem x (xs ++ p ∷ []) (record k { ready_queue = x ∷ (xs ++ p ∷ []) }) m refl,
    )

-- Where `malloc` does not fail and the chosen process has a kernel stack or finds frames for one, a tick
-- of the clock with `x ∷ xs` ready puts the active process at the end of the queue, and the first of
-- it runs, or the second where the first is idle, which goes to the end.
pub do_scheduler_lem :
    (x : ℕ) (xs : List ℕ) (p : ℕ) (k : Kernel)
    → k.mallocs ≡ []
    → k.active_proc ≡ some p
    → k.ready_queue ≡ x ∷ xs
    → CanRun k (choose x (xs ++ p ∷ [])).0
    → GivesTo
        (Rescheduled k (choose x (xs ++ p ∷ [])).0 (choose x (xs ++ p ∷ [])).1)
        (do_scheduler k)
do_scheduler_lem x xs p k m a e can =
    let next = choose x (xs ++ p ∷ []) in
    rw (do_scheduler_eq x xs p k m a e) (
      GivesTo-of_Switches _ _ (context_switch-Rescheduled (some p) next.0 preempted next.1 k)
        (context_switch-CanRun (some p) next.0 preempted (record k { ready_queue = next.1 }) can))
