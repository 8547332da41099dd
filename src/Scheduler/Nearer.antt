-- ===== src/Scheduler/Nearer.antt =====
-- How a choice of the scheduler moves the processes in its queue.
use mathlib.Core.List.{append_assoc}
use sc0x3a.Base.{
  ℕ, suc, ◌<◌, ◌≡◌, ◌≢◌, refl, ◌⊎◌, inl, inr, List, [], ◌∷◌, ◌++◌, ◌==◌, arith, length, Bool-cases,
  false,
}
use sc0x3a.Scheduler.Choice.{choose}

-- The process stands in the queue behind fewer than `n` others.
abbrev pub StandsBefore : ℕ → ℕ → List ℕ → Type 0
StandsBefore q n queue =
    (before : List ℕ) × (after : List ℕ) × (queue ≡ before ++ q ∷ after) × (length before < n)

choose-front : (q : ℕ) (after : List ℕ) → q ≢ 1 → (choose q after).0 ≡ q
unfolding choose
choose-front q [] ne = refl
choose-front q (y ∷ ys) ne = ground arith

choose-idle : (y : ℕ) (ys : List ℕ) → choose 1 (y ∷ ys) ≡ (y, ys ++ 1 ∷ [])
unfolding choose
choose-idle y ys = refl

choose-other : (x y : ℕ) (ys : List ℕ) → (x == 1) ≡ false → choose x (y ∷ ys) ≡ (x, y ∷ ys)
unfolding choose
choose-other x y ys ne = rw (ne)

-- Idle at the front gives way to the next in the queue.
behind_idle :
    (q : ℕ) (bs after : List ℕ)
    → (let next = choose 1 (bs ++ q ∷ after) in
        (next.0 ≡ q) ⊎ StandsBefore q (suc (length bs)) next.1)
behind_idle q [] after = rw (choose-idle q after) (inl refl)
behind_idle q (c ∷ cs) after =
    rw (choose-idle c (cs ++ q ∷ after))
      (inr (cs, after ++ 1 ∷ [], append_assoc cs (q ∷ after) (1 ∷ []), omega arith))

behind_other :
    (b q : ℕ) (bs after : List ℕ)
    → (b == 1) ≡ false
    → StandsBefore q (suc (length bs)) (choose b (bs ++ q ∷ after)).1
behind_other b q [] after ne = rw (choose-other b q after ne) ([], after, refl, omega arith)
behind_other b q (c ∷ cs) after ne =
    rw (choose-other b c (cs ++ q ∷ after) ne) (c ∷ cs, after, refl, omega arith)

-- The choice takes a process that is not idle, or leaves it behind fewer others than it was.
pub choose-nearer :
    (q x : ℕ) (xs before after : List ℕ)
    → q ≢ 1
    → x ∷ xs ≡ before ++ q ∷ after
    → (let next = choose x xs in (next.0 ≡ q) ⊎ StandsBefore q (length before) next.1)
choose-nearer q x xs [] after ne e =
    let first : x ≡ q = cc in
    let others : xs ≡ after = cc in rw (first, others) (inl (choose-front q after ne))
choose-nearer q x xs (b ∷ bs) after ne e =
    let first : x ≡ b = cc in
    let others : xs ≡ bs ++ q ∷ after = cc in
    elim (Bool-cases (b == 1)) [
      | inl idle ↦
          let one : b ≡ 1 = ground arith in rw (others, first, one) (behind_idle q bs after)
      | inr other ↦ rw (first, others) (inr (behind_other b q bs after other))
    ]
