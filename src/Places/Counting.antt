-- ===== src/Places/Counting.antt =====
-- How the edits of the kernel's lists change the count, and what giving the processor away does.
use sc0x3a.Base.{
  ℕ, ◌+◌, ◌≡◌, refl, ◌∙◌, ℤ, Bool, true, false, some, List, [], ◌∷◌, ◌++◌, ◌==◌, if◌then◌else◌,
  arith, count, count-append, find, update_first, remove_first, Bool-cases, inl, inr,
}
use sc0x3a.Kernel.{Kernel, Point}
use sc0x3a.Kernel.Monad.{
  M, Switches, Switches-mono, Switches-bind, Keeps, Keeps-of_Switches, and_then,
}
use sc0x3a.Scheduler.{normal_schedule, context_switch}
use sc0x3a.Scheduler.Choice.{choose, context_switch-Rescheduled, normal_schedule_eq}
use sc0x3a.Places.{count_in, places, queued}

find_hit {ℓ} :
    {A : Type ℓ} (test : A → Bool) (x y : A) (ys : List A)
    → find test (y ∷ ys) ≡ some x
    → test y ≡ true
    → y ≡ x
find_hit test x y ys e t = ground arith

find_miss {ℓ} :
    {A : Type ℓ} (test : A → Bool) (x y : A) (ys : List A)
    → find test (y ∷ ys) ≡ some x
    → test y ≡ false
    → find test ys ≡ some x
find_miss test x y ys e t = ground arith

module _ {ℓ} {A : Type ℓ} (f : A → List ℕ) (a : ℕ) where
  pub count_in-append :
      (xs ys : List A) → count_in f a (xs ++ ys) ≡ count_in f a xs + count_in f a ys
  unfolding count_in
  count_in-append [] ys = omega arith
  count_in-append (x ∷ xs) ys = omega (arith, count_in-append xs ys)

  -- The element that a search finds is the one that an update changes.
  pub count_in-update_first :
      (test : A → Bool) (g : A → A) (x : A) (xs : List A)
      → find test xs ≡ some x
      → count_in f a (update_first test g xs) + count a (f x) ≡ count_in f a xs + count a (f (g x))
  unfolding count_in
  count_in-update_first test g x [] e = absurd (cc)
  count_in-update_first test g x (y ∷ ys) e = elim (Bool-cases (test y)) [
    | inl t ↦ rw (t, ← find_hit test x y ys e t) (omega arith)
    | inr t ↦ rw t (omega (arith, count_in-update_first test g x ys (find_miss test x y ys e t)))
  ]

  pub count_in-remove_first :
      (test : A → Bool) (x : A) (xs : List A)
      → find test xs ≡ some x
      → count_in f a (remove_first test xs) + count a (f x) ≡ count_in f a xs
  unfolding count_in
  count_in-remove_first test x [] e = absurd (cc)
  count_in-remove_first test x (y ∷ ys) e = elim (Bool-cases (test y)) [
    | inl t ↦ rw (t, ← find_hit test x y ys e t) (omega arith)
    | inr t ↦ rw t (omega (arith, count_in-remove_first test x ys (find_miss test x y ys e t)))
  ]

pub count-choose :
    (a x : ℕ) (xs : List ℕ)
    → (if a == (choose x xs).0 then 1 else 0) + count a (choose x xs).1 ≡ count a (x ∷ xs)
unfolding choose
count-choose a x [] = refl
count-choose a x (y ∷ ys) = ground (arith, count-append a ys (1 ∷ []))

-- A process that blocks is no longer counted as the active one; no other count changes.
pub queued-normal_schedule :
    (a x : ℕ) (xs : List ℕ) (pt : Point) (k : Kernel)
    → k.mallocs ≡ []
    → k.ready_queue ≡ x ∷ xs
    → Switches (λ k'. places a k' ≡ queued a k) (normal_schedule pt k)
queued-normal_schedule a x xs pt k m e = rw (normal_schedule_eq pt x xs k m e) (
    Switches-mono _ _
      (context_switch k.active_proc (choose x xs).0 pt (record k { ready_queue = (choose x xs).1 }))
      (context_switch-Rescheduled k.active_proc (choose x xs).0 pt (choose x xs).1 k)
      λ k' r.
        rw (r.active, r.ready, r.sleeping, r.waiting, r.io, r.pipes, r.locks, r.cvars, r.sems, e)
          (omega (arith, count-choose a x xs)))

-- No process is lost or made up on the way from `k` to `k'`.
abbrev pub Same : ℕ → Kernel → Kernel → Type 0
Same a k k' = places a k' ≡ places a k

-- A process that has queued itself, from `k` to `k₁`, and gives the processor away.
pub block-Same :
    {B : Type 0} (a x : ℕ) (xs : List ℕ) (pt : Point) (k k₁ : Kernel) (f : ℤ → M B)
    → k₁.mallocs ≡ []
    → k₁.ready_queue ≡ x ∷ xs
    → queued a k₁ ≡ places a k
    → Keeps (Same a k) (and_then (normal_schedule pt k₁) f)
block-Same a x xs pt k k₁ f m e q =
    Keeps-of_Switches (Same a k) (and_then (normal_schedule pt k₁) f) (
      Switches-bind (Same a k) (normal_schedule pt k₁) f (
        Switches-mono (λ k'. places a k' ≡ queued a k₁) (Same a k) (normal_schedule pt k₁)
          (queued-normal_schedule a x xs pt k₁ m e) λ k' s. s ∙ q))
