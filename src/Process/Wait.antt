-- ===== src/Process/Wait.antt =====
-- Which entry of `dead_list` sys_Wait takes.
use sc0x3a.Base.{
  ℕ, zero, suc, ◌+◌, ◌-◌, ◌≤◌, ◌<◌, ◌≡◌, refl, ap, inl, inr, Bool, true, none, some, List, [], ◌∷◌,
  ◌++◌, arith, length, length-append, remove_at, find, Bool-cases, pos,
}
use sc0x3a.Kernel.{Kernel, DeadInfo}
use sc0x3a.Kernel.Monad.{done}
use sc0x3a.Kernel.Memory.{write_int}
use sc0x3a.Process.{child_of, position, reap, wait_back}

remove_at-beyond {ℓ} : {A : Type ℓ} (n : ℕ) (xs : List A) → length xs ≤ n → remove_at n xs ≡ xs
remove_at-beyond n [] h = refl
remove_at-beyond zero (x ∷ xs) h = absurd (omega arith)
remove_at-beyond (suc n) (x ∷ xs) h = ap (λ zs. x ∷ zs) (remove_at-beyond n xs (omega arith))

reap_eq :
    (i p : ℕ) (d : DeadInfo) (f : ℕ → ℕ → ℕ) (k : Kernel)
    → k.active_proc ≡ some p
    → find (child_of p) k.dead_list ≡ some d
    → write_int k.uctxt.reg0 d.status k ≡ done tt (record k { phys = f })
    → reap i k
      ≡ done (some (pos d.pid)) (record k {
        phys = f;
        dead_list = remove_at (i + position (child_of p) k.dead_list - 1) k.dead_list;
      })
unfolding reap
reap_eq i p d f k act e wr = ground arith

find-last {ℓ} :
    {A : Type ℓ} (test : A → Bool) (x : A) (xs : List A)
    → find test xs ≡ none
    → test x ≡ true
    → (find test (xs ++ x ∷ []) ≡ some x) × (position test (xs ++ x ∷ []) ≡ length xs)
find-last test x [] e t = rw (t) (refl, refl)
find-last test x (y ∷ ys) e t = elim (Bool-cases (test y)) [
  | inl here ↦ absurd (ground arith)
  | inr there ↦
      let rest = find-last test x ys (ground arith) t in rw (there) (rest.0, ap suc rest.1)
]

-- A process that found no dead child among the entries `old`, at least one, and waited until a child
-- has been entered behind them, gets its pid, but the entry stays: the counter goes on from the first scan.
pub wait_back-leaves :
    (p : ℕ) (old : List DeadInfo) (d : DeadInfo) (f : ℕ → ℕ → ℕ) (k : Kernel)
    → k.active_proc ≡ some p
    → 0 < length old
    → find (child_of p) old ≡ none
    → child_of p d ≡ true
    → k.dead_list ≡ old ++ d ∷ []
    → write_int k.uctxt.reg0 d.status k ≡ done tt (record k { phys = f })
    → wait_back (length old + 1) k ≡ done (pos d.pid) (record k { phys = f })
unfolding wait_back
wait_back-leaves p old d f k act some_old no_child child e wr =
    let last = find-last (child_of p) d old no_child child in
    let found : find (child_of p) k.dead_list ≡ some d = rw (e) last.0 in
    let place : position (child_of p) k.dead_list ≡ length old = rw (e) last.1 in
    let beyond : length k.dead_list ≤ length old + 1 + position (child_of p) k.dead_list - 1 =
      omega (arith, place, ap length e, length-append old (d ∷ [])) in
    rw (reap_eq (length old + 1) p d f k act found wr) (
      rw (
        remove_at-beyond (length old + 1 + position (child_of p) k.dead_list - 1) k.dead_list
          beyond))
