-- ===== src/Trap/Fair.antt =====
-- How long a process waits in the ready queue while the clock ticks.
use mathlib.Core.List.{append_assoc}
use sc0x3a.Base.{
  ℕ, zero, suc, ◌<◌, ◌≡◌, ◌≢◌, refl, sym, ap, ◌∙◌, ◌⊎◌, inl, inr, some, List, [], ◌∷◌, ◌++◌, arith,
  length, length-append, List-cases,
}
use sc0x3a.Kernel.{Kernel, Pte, preempted}
use sc0x3a.Kernel.Monad.{switched}
use sc0x3a.Scheduler.Stacked.{
  AllStacked, make_ready-stack, switched_to, switched_to-stack, context_switch_eq,
}
use sc0x3a.Scheduler.Sleep.{make_ready, over, still, update_sleep_list_lem}
use sc0x3a.Scheduler.Choice.{GivesTo, choose, do_scheduler_eq}
use sc0x3a.Scheduler.Nearer.{choose-nearer}
use sc0x3a.Trap.{trap_clock_hdl}

-- The state after a tick, before the next process is chosen.
abbrev ticked : List ℕ → Kernel → Kernel
ticked queue k = record k {
  sleep_list = still k.sleep_list;
  ready_queue = queue;
  pcbs = make_ready (over k.sleep_list) k.pcbs;
}

-- The state after the trap of the clock, where `x ∷ xs` is ready.
abbrev after_tick : ℕ → ℕ → List ℕ → Kernel → Kernel
after_tick p x xs k =
    let next = choose x ((xs ++ over k.sleep_list) ++ p ∷ []) in
    switched_to p next.0 preempted (ticked next.1 k)

trap_clock_hdl_eq :
    (p x : ℕ) (xs : List ℕ) (k : Kernel)
    → k.mallocs ≡ []
    → k.active_proc ≡ some p
    → k.ready_queue ≡ x ∷ xs
    → AllStacked k
    → trap_clock_hdl k ≡ switched (after_tick p x xs k)
unfolding trap_clock_hdl
trap_clock_hdl_eq p x xs k m act e stacked =
    let woken = xs ++ over k.sleep_list in
    let next = choose x (woken ++ p ∷ []) in
    let stacked₁ : AllStacked (ticked next.1 k) = λ q z.
      stacked q
        (ap {A = Pte} (λ t. t.pfn) (sym (make_ready-stack (over k.sleep_list) k.pcbs q)) ∙ z) in
    rw (update_sleep_list_lem k m) (
      rw
        (do_scheduler_eq x woken p (ticked (k.ready_queue ++ over k.sleep_list) k) m act
          (ap (λ ys. ys ++ over k.sleep_list) e))
        (rw (context_switch_eq p next.0 preempted (ticked next.1 k) stacked₁)))

-- Within `n` ticks of the clock the processor is given to the process, where `between n` is what happens to
-- the kernel before a tick behind which `n` more come.
unfoldable pub RunsWithin : (ℕ → Kernel → Kernel) → ℕ → ℕ → Kernel → Type 0
RunsWithin between q zero k = k.active_proc ≡ some q
RunsWithin between q (suc n) k =
    (k.active_proc ≡ some q) ⊎ GivesTo (RunsWithin between q n) (trap_clock_hdl (between n k))

RunsWithin-now :
    (between : ℕ → Kernel → Kernel) (q n : ℕ) (k : Kernel)
    → k.active_proc ≡ some q
    → RunsWithin between q n k
unfolding RunsWithin
RunsWithin-now between q zero k act = act
RunsWithin-now between q (suc n) k act = inl act

-- What the ticks leave for the next one.
abbrev pub Runnable : Kernel → Type 0
Runnable k = (k.mallocs ≡ []) × ((p : ℕ) × (k.active_proc ≡ some p)) × AllStacked k

-- What may happen between two ticks: the process that runs goes on running, and others are at most added
-- at the end of the ready queue; no memory runs out, and each process has a kernel stack.
pub record Between (k j : Kernel) : Type 0 where
  pub memory : j.mallocs ≡ []
  pub active : j.active_proc ≡ k.active_proc
  pub more : List ℕ
  pub ready : j.ready_queue ≡ k.ready_queue ++ more
  pub stacked : AllStacked j

after_tick-Runnable :
    (p x : ℕ) (xs : List ℕ) (k : Kernel) → Runnable k → Runnable (after_tick p x xs k)
after_tick-Runnable p x xs k (m, act, stacked) =
    let next = choose x ((xs ++ over k.sleep_list) ++ p ∷ []) in
    (
      m,
      (next.0, refl),
      λ q z. stacked q (
          ap {A = Pte} (λ t. t.pfn)
            (sym (
              switched_to-stack p next.0 q preempted (ticked next.1 k)
              ∙ make_ready-stack (over k.sleep_list) k.pcbs q))
          ∙ z),
    )

-- The queue that a tick chooses from.
joined :
    (x q p : ℕ) (xs before after more : List ℕ)
    → x ∷ xs ≡ before ++ q ∷ after
    → x ∷ ((xs ++ more) ++ p ∷ []) ≡ before ++ q ∷ ((after ++ more) ++ p ∷ [])
joined x q p xs before after more e =
    ap (λ ys. (ys ++ more) ++ p ∷ []) e
    ∙ rw (append_assoc before (q ∷ after) more, append_assoc before (q ∷ (after ++ more)) (p ∷ []))

-- Where `malloc` does not fail, every process has a kernel stack and the processor is in use, and where
-- between two ticks of the clock the process that runs goes on running and others are at most added at
-- the end of the ready queue, a process that is not idle and is ready behind fewer than `n` others is given
-- the processor within `n` ticks, whatever sleepers wake in the meantime.
pub trap_clock_hdl-RunsWithin :
    (between : ℕ → Kernel → Kernel)
    → ((n : ℕ) (k : Kernel) → Runnable k → Between k (between n k))
    → (n q : ℕ) (before after : List ℕ) (k : Kernel) → Runnable k
    → k.ready_queue ≡ before ++ q ∷ after
    → length before < n
    → q ≢ 1
    → RunsWithin between q n k
unfolding RunsWithin
trap_clock_hdl-RunsWithin between lets zero q before after k run e lt ne = absurd (omega arith)
trap_clock_hdl-RunsWithin between lets (suc n) q before after k run e lt ne =
    let j = between n k in
    let b = lets n k run in
    let (m, (p, act), stacked) = run in
    let stands = b.ready ∙ ap (λ ys. ys ++ b.more) e ∙ append_assoc before (q ∷ after) b.more in
    let behind = after ++ b.more in
    let run₁ : Runnable j = (b.memory, (p, b.active ∙ act), b.stacked) in
    elim (List-cases j.ready_queue) [
      | inl nobody ↦
          absurd
            (omega (arith, ap length nobody, ap length stands, length-append before (q ∷ behind)))
      | inr (x, xs, queue) ↦
          let more = over j.sleep_list in
          let k₁ = after_tick p x xs j in
          inr (
            rw (trap_clock_hdl_eq p x xs j b.memory (b.active ∙ act) queue b.stacked)
              (elim (choose-nearer q x ((xs ++ more) ++ p ∷ []) before ((behind ++ more) ++ p ∷ [])
                ne (joined x q p xs before behind more (sym queue ∙ stands))) [
                  | inl chosen ↦ RunsWithin-now between q n k₁ (ap some chosen)
                  | inr (front, back, at, nearer) ↦
                      trap_clock_hdl-RunsWithin between lets n q front back k₁
                        (after_tick-Runnable p x xs j run₁) at (omega arith) ne
                ]))
    ]
