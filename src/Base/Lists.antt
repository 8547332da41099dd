-- ===== src/Base/Lists.antt =====
-- Lists measured and indexed by native numbers, under the library's names, and the edits of a
-- sequence at a position that the kernel's linked list stands for.
use Prim.Native.Nat.{ℕ, zero, suc, ◌+◌, ◌-◌, ◌<◌}
use mathlib.Core.Path.{◌≡◌, refl, subst}
use mathlib.Core.List.{List, [], ◌∷◌, ◌++◌}
use mathlib.Core.Bool.{Bool, true, false, ◌||◌}
use mathlib.Core.Option.{Option, none, some}
use mathlib.Core.Logic.{◌⊎◌, inl, inr}
use native.Mathlib.Omega.{arith}
use sc0x3a.Base.Tests.{◌==◌, if◌then◌else◌, Bool-cases}

module _ {ℓ} {A : Type ℓ} where
  abbrev pub length : List A → ℕ
  length [] = 0
  length (x ∷ xs) = suc (length xs)

  abbrev pub get_elem? : List A → ℕ → Option A
  get_elem? [] i = none
  get_elem? (x ∷ xs) zero = some x
  get_elem? (x ∷ xs) (suc i) = get_elem? xs i

  -- A write out of bounds changes nothing.
  abbrev pub set : List A → ℕ → A → List A
  set [] i v = []
  set (x ∷ xs) zero v = v ∷ xs
  set (x ∷ xs) (suc i) v = x ∷ set xs i v

  abbrev pub take : ℕ → List A → List A
  take zero xs = []
  take (suc n) [] = []
  take (suc n) (x ∷ xs) = x ∷ take n xs

  abbrev pub drop : ℕ → List A → List A
  drop zero xs = xs
  drop (suc n) [] = []
  drop (suc n) (x ∷ xs) = drop n xs

  -- `x` comes to stand at position `n`, counted from 0.
  abbrev pub insert_at : ℕ → A → List A → List A
  insert_at zero x xs = x ∷ xs
  insert_at (suc n) x [] = x ∷ []
  insert_at (suc n) x (y ∷ ys) = y ∷ insert_at n x ys

  abbrev pub remove_at : ℕ → List A → List A
  remove_at n [] = []
  remove_at zero (x ∷ xs) = xs
  remove_at (suc n) (x ∷ xs) = x ∷ remove_at n xs

  pub length-append : (xs ys : List A) → length (xs ++ ys) ≡ length xs + length ys
  length-append [] ys = omega arith
  length-append (x ∷ xs) ys = omega (arith, length-append xs ys)

module _ {ℓ} {A : Type ℓ} where
  pub length-insert_at : (n : ℕ) (x : A) (xs : List A) → length (insert_at n x xs) ≡ length xs + 1
  length-insert_at zero x xs = omega arith
  length-insert_at (suc n) x [] = omega arith
  length-insert_at (suc n) x (y ∷ ys) = omega (arith, length-insert_at n x ys)

  pub length-remove_at :
      (n : ℕ) (xs : List A) → n < length xs → length (remove_at n xs) + 1 ≡ length xs
  length-remove_at n [] h = absurd (omega arith)
  length-remove_at zero (x ∷ xs) h = omega arith
  length-remove_at (suc n) (x ∷ xs) h = omega (arith, length-remove_at n xs (omega arith))

  -- An insertion behind the last element is an append.
  pub insert_at-length : (x : A) (xs : List A) → insert_at (length xs) x xs ≡ xs ++ x ∷ []
  insert_at-length x [] = refl
  insert_at-length x (y ∷ ys) = rw (insert_at-length x ys)

-- How often `a` stands in a list.
abbrev pub count : ℕ → List ℕ → ℕ
count a [] = 0
count a (x ∷ xs) = (if a == x then 1 else 0) + count a xs

pub count-append :
    (p : ℕ) (front back : List ℕ) → count p (front ++ back) ≡ count p front + count p back
count-append p [] back = omega arith
count-append p (q ∷ front) back = omega (arith, count-append p front back)

-- Searches by a test, as the loops over the kernel's lists make them: the first element that passes,
-- the list with that element changed, and the list without it.
module _ {ℓ} {A : Type ℓ} (test : A → Bool) where
  abbrev pub find : List A → Option A
  find [] = none
  find (x ∷ xs) = if test x then some x else find xs

  abbrev pub update_first : (A → A) → List A → List A
  update_first f [] = []
  update_first f (x ∷ xs) = if test x then f x ∷ xs else x ∷ update_first f xs

  abbrev pub remove_first : List A → List A
  remove_first [] = []
  remove_first (x ∷ xs) = if test x then xs else x ∷ remove_first xs

  abbrev pub any : List A → Bool
  any [] = false
  any (x ∷ xs) = test x || any xs

pub List-cases {ℓ} :
    {A : Type ℓ} (xs : List A) → (xs ≡ []) ⊎ ((x : A) × (ys : List A) × (xs ≡ x ∷ ys))
List-cases [] = inl refl
List-cases (x ∷ ys) = inr (x, ys, refl)

-- Two changes of the first element that passes, where the first change keeps the test, are one.
pub update_first_twice {ℓ} :
    {A : Type ℓ} (test : A → Bool) (f g : A → A) (xs : List A)
    → ((x : A) → test (f x) ≡ test x)
    → update_first test g (update_first test f xs) ≡ update_first test (λ x. g (f x)) xs
update_first_twice test f g [] h = refl
update_first_twice test f g (x ∷ xs) h = elim (Bool-cases (test x)) [
  | inl e ↦ rw (e) (rw (h x, e))
  | inr e ↦ rw (e, e) (rw (update_first_twice test f g xs h))
]

-- A predicate that holds of each element.
abbrev pub All {ℓ κ} : {A : Type ℓ} → (A → Type κ) → List A → Type κ
All P [] = Unit
All P (x ∷ xs) = P x × All P xs

pub All-append {ℓ κ} :
    {A : Type ℓ} (P : A → Type κ) (xs ys : List A) → All P xs → All P ys → All P (xs ++ ys)
All-append P [] ys hx hy = hy
All-append P (x ∷ xs) ys hx hy = (hx.0, All-append P xs ys hx.1 hy)

-- What a search finds has the predicate, and a change of it that keeps the predicate keeps it for all.
pub All-find {ℓ κ} :
    {A : Type ℓ} (P : A → Type κ) (test : A → Bool) (x : A) (xs : List A)
    → All P xs
    → find test xs ≡ some x
    → P x
All-find P test x [] h e = absurd (cc)
All-find P test x (y ∷ ys) h e = elim (Bool-cases (test y)) [
  | inl t ↦ let same : y ≡ x = ground arith in subst P same h.0
  | inr t ↦ All-find P test x ys h.1 (ground arith)
]

pub All-update_first {ℓ κ} :
    {A : Type ℓ} (P : A → Type κ) (test : A → Bool) (g : A → A) (x : A) (xs : List A)
    → All P xs
    → find test xs ≡ some x
    → P (g x)
    → All P (update_first test g xs)
All-update_first P test g x [] h e p = h
All-update_first P test g x (y ∷ ys) h e p = elim (Bool-cases (test y)) [
  | inl t ↦ let same : x ≡ y = ground arith in rw (t) (subst (λ z. P (g z)) same p, h.1)
  | inr t ↦ rw (t) (h.0, All-update_first P test g x ys h.1 (ground arith) p)
]

-- A change that keeps the test is found again.
pub find-update_first {ℓ} :
    {A : Type ℓ} (test : A → Bool) (f : A → A) (x : A) (xs : List A)
    → ((y : A) → test (f y) ≡ test y)
    → find test xs ≡ some x
    → find test (update_first test f xs) ≡ some (f x)
find-update_first test f x [] h e = absurd (cc)
find-update_first test f x (y ∷ ys) h e = elim (Bool-cases (test y)) [
  | inl t ↦ let same : y ≡ x = ground arith in rw (t) (rw (h y, t, same))
  | inr t ↦ rw (t) (rw (t) (find-update_first test f x ys h (ground arith)))
]

pub append_inj {ℓ} :
    {A : Type ℓ} (xs us ys vs : List A)
    → length xs ≡ length us
    → xs ++ ys ≡ us ++ vs
    → (xs ≡ us) × (ys ≡ vs)
append_inj [] [] ys vs l e = (refl, e)
append_inj [] (u ∷ us) ys vs l e = absurd (omega arith)
append_inj (x ∷ xs) [] ys vs l e = absurd (omega arith)
append_inj (x ∷ xs) (u ∷ us) ys vs l e =
    let tails : xs ++ ys ≡ us ++ vs = cc in
    let p = append_inj xs us ys vs (omega arith) tails in (let front = p.0 in cc, p.1)

pub find_passes {ℓ} :
    {A : Type ℓ} (test : A → Bool) (x : A) (xs : List A) → find test xs ≡ some x → test x ≡ true
find_passes test x [] e = absurd (cc)
find_passes test x (y ∷ ys) e = elim (Bool-cases (test y)) [
  | inl t ↦ let same : y ≡ x = ground arith in subst (λ z. test z ≡ true) same t
  | inr t ↦ find_passes test x ys (ground arith)
]

pub length-drop {ℓ} : {A : Type ℓ} (n : ℕ) (xs : List A) → length (drop n xs) ≡ length xs - n
length-drop zero xs = omega arith
length-drop (suc n) [] = omega arith
length-drop (suc n) (x ∷ xs) = omega (arith, length-drop n xs)

pub All-take {ℓ κ} :
    {A : Type ℓ} (P : A → Type κ) (n : ℕ) (xs : List A) → All P xs → All P (take n xs)
All-take P zero xs h = tt
All-take P (suc n) [] h = tt
All-take P (suc n) (x ∷ xs) h = (h.0, All-take P n xs h.1)

pub All-drop {ℓ κ} :
    {A : Type ℓ} (P : A → Type κ) (n : ℕ) (xs : List A) → All P xs → All P (drop n xs)
All-drop P zero xs h = h
All-drop P (suc n) [] h = tt
All-drop P (suc n) (x ∷ xs) h = All-drop P n xs h.1
