-- ===== src/Untouched/Holder.antt =====
-- The holder of a lock around changes of the list of locks.
use sc0x3a.Base.{
  ℕ, ◌≡◌, refl, Bool, false, ◌&&◌, some, List, [], ◌∷◌, ◌++◌, ◌==◌, arith, find, update_first,
  remove_first, Bool-cases, inl, inr,
}
use sc0x3a.Kernel.{LockInfo}
use sc0x3a.Lock.{lock_at}
use sc0x3a.Untouched.{holder}

-- Whether this is the lock `n`, taken by `q`.
abbrev pub holds : ℕ → ℕ → LockInfo → Bool
holds n q l = lock_at n l && l.locked && (l.pid == q)

module _ (n q : ℕ) where
  pub holder-append : (ls ms : List LockInfo) → holder n ls ≡ some q → holder n (ls ++ ms) ≡ some q
  holder-append [] ms h = absurd (cc)
  holder-append (l ∷ ls) ms h = ground (arith, holder-append ls ms)

  -- A change of the first lock that passes a test, where that is not the lock that `q` holds.
  pub holder-update_first :
      (test : LockInfo → Bool) (g : LockInfo → LockInfo) (ls : List LockInfo)
      → ((l : LockInfo) → lock_at n (g l) ≡ lock_at n l)
      → ((l : LockInfo) → find test ls ≡ some l → holds n q l ≡ false)
      → holder n ls ≡ some q
      → holder n (update_first test g ls) ≡ some q
  holder-update_first test g [] same other h = h
  holder-update_first test g (l ∷ ls) same other h = elim (Bool-cases (test l)) [
    | inl t ↦ ground (arith, t, same l, other l)
    | inr t ↦ ground (arith, t, holder-update_first test g ls same (λ m e. other m (rw (t) e)))
  ]

  pub holder-remove_first :
      (test : LockInfo → Bool) (ls : List LockInfo)
      → ((l : LockInfo) → find test ls ≡ some l → holds n q l ≡ false)
      → holder n ls ≡ some q
      → holder n (remove_first test ls) ≡ some q
  holder-remove_first test [] other h = h
  holder-remove_first test (l ∷ ls) other h = elim (Bool-cases (test l)) [
    | inl t ↦ ground (arith, t, other l)
    | inr t ↦ ground (arith, t, holder-remove_first test ls (λ m e. other m (rw (t) e)))
  ]

  -- A change that keeps who has taken the lock.
  pub holder-update_same :
      (test : LockInfo → Bool) (g : LockInfo → LockInfo) (ls : List LockInfo)
      → ((l : LockInfo) → lock_at n (g l) ≡ lock_at n l)
      → ((l : LockInfo) → (g l).locked ≡ l.locked)
      → ((l : LockInfo) → (g l).pid ≡ l.pid)
      → holder n (update_first test g ls) ≡ holder n ls
  holder-update_same test g [] a b c = refl
  holder-update_same test g (l ∷ ls) x y z =
      ground (arith, x l, y l, z l, holder-update_same test g ls x y z)
