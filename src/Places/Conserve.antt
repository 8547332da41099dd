-- ===== src/Places/Conserve.antt =====
-- Commands that leave each process in as many places as it was: rules for the ways in which the
-- handlers are put together.
use sc0x3a.Base.{ℕ, ◌≡◌, ◌∙◌, Bool, true, false, Option, none, some, List, [], ◌∷◌, if◌then◌else◌}
use sc0x3a.Kernel.{Kernel, Point}
use sc0x3a.Kernel.Monad.{
  M, ◌>>=◌, current, current_lem, Keeps, Keeps-bind, Keeps-mono, Switches, Switches-mono,
  Switches-bind, Keeps-of_Switches,
}
use sc0x3a.Scheduler.{normal_schedule}
use sc0x3a.Quiet.{Quiet, Silent}
use sc0x3a.Places.{places, queued}
use sc0x3a.Places.Counting.{Same, queued-normal_schedule}

-- `malloc` does not fail, the process runs, and another is ready.
pub record CanBlock (p : ℕ) (k : Kernel) : Type 0 where
  pub memory : k.mallocs ≡ []
  pub active : k.active_proc ≡ some p
  pub ready : (x : ℕ) × (xs : List ℕ) × (k.ready_queue ≡ x ∷ xs)

pub CanBlock-Quiet : (p : ℕ) (k k' : Kernel) → Quiet k k' → CanBlock p k → CanBlock p k'
CanBlock-Quiet p k k' q c =
    let (x, xs, e) = c.ready in
    record {
      memory = q.memory c.memory;
      active = q.active ∙ c.active;
      ready = (x, xs, q.ready ∙ e);
    }

pub Same-Quiet : (a : ℕ) (k k' : Kernel) → Quiet k k' → Same a k k'
Same-Quiet a k k' q =
    rw (q.active, q.ready, q.sleeping, q.waiting, q.io, q.pipes, q.locks, q.cvars, q.sems)

-- Run by `p`, the command leaves `a` in as many places as it was; and the same of one that gives the
-- processor away.
unfoldable pub Conserves : {A : Type 0} → ℕ → ℕ → M A → Type 0
Conserves a p m = (k : Kernel) → CanBlock p k → Keeps (Same a k) (m k)

unfoldable pub Blocks : {A : Type 0} → ℕ → ℕ → M A → Type 0
Blocks a p m = (k : Kernel) → CanBlock p k → Switches (Same a k) (m k)

module _ (a p : ℕ) where
  pub Conserves-of_Silent : {A : Type 0} (m : M A) → Silent m → Conserves a p m
  unfolding Conserves Silent
  Conserves-of_Silent m s k c = Keeps-mono (Quiet k) (Same a k) (m k) (s k) (Same-Quiet a k)

  pub Conserves-bind :
      {A B : Type 0} (m : M A) (f : A → M B)
      → Silent m
      → ((x : A) → Conserves a p (f x))
      → Conserves a p (m >>= f)
  unfolding Conserves Silent
  Conserves-bind m f s next k c =
      Keeps-bind (Quiet k) (Same a k) (m k) f (s k) (Same-Quiet a k) λ x k₁ q.
        Keeps-mono (Same a k₁) (Same a k) (f x k₁) (next x k₁ (CanBlock-Quiet p k k₁ q c))
          λ k₂ e. e ∙ Same-Quiet a k k₁ q

  pub Conserves-then :
      {A B : Type 0} (m : M A) (f : A → M B)
      → Conserves a p m
      → ((x : A) → Silent (f x))
      → Conserves a p (m >>= f)
  unfolding Conserves Silent
  Conserves-then m f first next k c =
      Keeps-bind (Same a k) (Same a k) (m k) f (first k c) (λ k₁ s. s)
        λ x k₁ s.
          Keeps-mono (Quiet k₁) (Same a k) (f x k₁) (next x k₁) λ k₂ q. Same-Quiet a k₁ k₂ q ∙ s

  pub Conserves-current :
      {B : Type 0} (f : ℕ → M B) → Conserves a p (f p) → Conserves a p (current >>= f)
  unfolding Conserves
  Conserves-current f next k c = rw (current_lem k p c.active) (next k c)

  pub Conserves-if :
      {A : Type 0} (b : Bool) (m n : M A)
      → Conserves a p m
      → Conserves a p n
      → Conserves a p (if b then m else n)
  Conserves-if true m n s t = s
  Conserves-if false m n s t = t

  pub Conserves-elim :
      {A B : Type 0} (o : Option A) (m : M B) (f : A → M B)
      → Conserves a p m
      → ((x : A) → Conserves a p (f x))
      → Conserves a p (elim o [ none ↦ m | some x ↦ f x ])
  Conserves-elim none m f s t = s
  Conserves-elim (some x) m f s t = t x

  pub Conserves-of_Blocks : {A : Type 0} (m : M A) → Blocks a p m → Conserves a p m
  unfolding Conserves Blocks
  Conserves-of_Blocks m b k c = Keeps-of_Switches (Same a k) (m k) (b k c)

  pub Blocks-bind : {A B : Type 0} (m : M A) (f : A → M B) → Blocks a p m → Blocks a p (m >>= f)
  unfolding Blocks
  Blocks-bind m f b k c = Switches-bind (Same a k) (m k) f (b k c)

  pub Blocks-current : {B : Type 0} (f : ℕ → M B) → Blocks a p (f p) → Blocks a p (current >>= f)
  unfolding Blocks
  Blocks-current f next k c = rw (current_lem k p c.active) (next k c)

  -- The processor is given away in `k₁`, where the process stands in a list that it did not stand in.
  pub switch-Same :
      (pt : Point) (k k₁ : Kernel)
      → CanBlock p k₁
      → queued a k₁ ≡ places a k
      → Switches (Same a k) (normal_schedule pt k₁)
  switch-Same pt k k₁ c e =
      let (x, xs, r) = c.ready in
      Switches-mono _ (Same a k) (normal_schedule pt k₁)
        (queued-normal_schedule a x xs pt k₁ c.memory r) λ k₂ s. s ∙ e

pub ruleset conserve_rules =
    (Conserves-of_Silent, Conserves-bind, Conserves-current, Conserves-if, Conserves-elim)
