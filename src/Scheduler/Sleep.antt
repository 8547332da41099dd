-- ===== src/Scheduler/Sleep.antt =====
-- update_sleep_list against the ticks that the sleepers asked for.
use mathlib.Core.List.{append_assoc, append-nil}
use sc0x3a.Base.{
  ℕ, zero, suc, ◌-◌, ◌≡◌, refl, ◌∙◌, Bool, List, [], ◌∷◌, ◌++◌, if◌then◌else◌, arith, ℤ, pos, ◌-ℤ◌,
  leb_ℤ, eqb_ℤ, Bool-cases, inl, inr,
}
use sc0x3a.Kernel.{Kernel, Pcb, SleepInfo, ready}
use sc0x3a.Kernel.Monad.{M, Does, Does-mono, done, ◌>>◌, pure, set_pcb, put_ready_lem}
use sc0x3a.Scheduler.{update_pcb, wake_sleepers, update_sleep_list}

abbrev pub is_over : SleepInfo → Bool
is_over s = leb_ℤ (s.ticks_left -ℤ pos 1) (pos 0)

-- The processes whose last tick this is, and the sleepers that are left, each with a tick less.
unfoldable pub over : List SleepInfo → List ℕ
over [] = []
over (s ∷ ss) = if is_over s then s.pcb ∷ over ss else over ss

unfoldable pub still : List SleepInfo → List SleepInfo
still [] = []
still (s ∷ ss) =
    if is_over s then still ss else record s { ticks_left = s.ticks_left -ℤ pos 1 } ∷ still ss

unfoldable pub make_ready : List ℕ → (ℕ → Pcb) → ℕ → Pcb
make_ready [] f = f
make_ready (p ∷ ps) f = make_ready ps (set_pcb f p (let c = f p in record c { state = ready }))

woken : ℕ → Kernel → Kernel
woken p k = record k {
  pcbs = set_pcb k.pcbs p (let c = k.pcbs p in record c { state = ready });
  ready_queue = k.ready_queue ++ p ∷ [];
}

wake_sleepers_lem :
    (ss : List SleepInfo) (k : Kernel)
    → k.mallocs ≡ []
    → wake_sleepers ss k
      ≡ done
          (still ss)
          (record k { ready_queue = k.ready_queue ++ over ss; pcbs = make_ready (over ss) k.pcbs })
unfolding wake_sleepers over still make_ready update_pcb woken
wake_sleepers_lem [] k m = rw append-nil
wake_sleepers_lem (s ∷ ss) k m = elim (Bool-cases (is_over s)) [
  | inl e ↦
      let k₁ = record k {
        pcbs = set_pcb k.pcbs s.pcb (let c = k.pcbs s.pcb in record c { state = ready });
      } in
      rw (e, put_ready_lem s.pcb k₁ m) (rw (wake_sleepers_lem ss (woken s.pcb k) m, append_assoc))
  | inr e ↦ rw e (rw (wake_sleepers_lem ss k m))
]

ticked : Kernel → Kernel
ticked k = record k {
  sleep_list = still k.sleep_list;
  ready_queue = k.ready_queue ++ over k.sleep_list;
  pcbs = make_ready (over k.sleep_list) k.pcbs;
}

-- Where `malloc` does not fail, a tick makes ready, in their order, the sleepers whose last tick it is, takes them off the list, and
-- counts down the others.
pub update_sleep_list_lem :
    (k : Kernel)
    → k.mallocs ≡ []
    → update_sleep_list k
      ≡ done (pos 0) (record k {
        sleep_list = still k.sleep_list;
        ready_queue = k.ready_queue ++ over k.sleep_list;
        pcbs = make_ready (over k.sleep_list) k.pcbs;
      })
unfolding update_sleep_list
update_sleep_list_lem k m = rw (wake_sleepers_lem k.sleep_list k m)

-- The sleepers with exactly `n` ticks left, in their order; and those with `i`, then `i + 1`, for
-- `n` numbers.
unfoldable pub due : ℕ → List SleepInfo → List ℕ
due n [] = []
due n (s ∷ ss) = if eqb_ℤ s.ticks_left (pos n) then s.pcb ∷ due n ss else due n ss

unfoldable pub due_from : ℕ → ℕ → List SleepInfo → List ℕ
unfolding due
due_from i zero ss = []
due_from i (suc n) ss = due i ss ++ due_from (suc i) n ss

abbrev pub AllAsleep : List SleepInfo → Type 0
AllAsleep [] = Unit {0}
AllAsleep (s ∷ ss) = ((n : ℕ) × (s.ticks_left ≡ pos (suc n))) × AllAsleep ss

over-due : (ss : List SleepInfo) → AllAsleep ss → over ss ≡ due 1 ss
unfolding over due
over-due [] a = refl
over-due (s ∷ ss) a = ground (arith, over-due ss a.1)

still-AllAsleep : (ss : List SleepInfo) → AllAsleep ss → AllAsleep (still ss)
unfolding still
still-AllAsleep [] a = tt
still-AllAsleep (s ∷ ss) a = elim (Bool-cases (is_over s)) [
  | inl e ↦ rw e (still-AllAsleep ss a.1)
  | inr e ↦ rw e ((a.0.0 - 1, ground (arith, a.0.1)), still-AllAsleep ss a.1)
]

due-still :
    (i : ℕ) (ss : List SleepInfo) → AllAsleep ss → due (suc i) (still ss) ≡ due (suc (suc i)) ss
unfolding still due
due-still i [] a = refl
due-still i (s ∷ ss) a = ground (arith, due-still i ss a.1)

due_from-still :
    (n i : ℕ) (ss : List SleepInfo)
    → AllAsleep ss
    → due_from (suc i) n (still ss) ≡ due_from (suc (suc i)) n ss
unfolding due_from
due_from-still zero i ss a = refl
due_from-still (suc n) i ss a = rw (due-still i ss a, due_from-still n (suc i) ss a)

-- `n` calls of update_sleep_list.
pub ticks : ℕ → M ℤ
ticks zero = pure (pos 0)
ticks (suc n) = do update_sleep_list; ticks n

-- Where `malloc` does not fail and each sleeper has a tick left, in the course of `n` ticks exactly the sleepers with at most `n` ticks left become ready, each at
-- the tick that its call asked for.
pub ticks-due :
    (n : ℕ) (k : Kernel)
    → k.mallocs ≡ []
    → AllAsleep k.sleep_list
    → Does (λ rc k'. k'.ready_queue ≡ k.ready_queue ++ due_from 1 n k.sleep_list) (ticks n k)
unfolding ticks due_from ticked
ticks-due zero k m a = rw append-nil
ticks-due (suc n) k m a = rw (update_sleep_list_lem k m) (
    Does-mono _ _ (ticks n (ticked k)) (ticks-due n (ticked k) m (still-AllAsleep k.sleep_list a))
      λ rc k' e.
        e
        ∙ rw (over-due k.sleep_list a, due_from-still n 0 k.sleep_list a)
            (append_assoc k.ready_queue (due 1 k.sleep_list) (due_from 2 n k.sleep_list)))
