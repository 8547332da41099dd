-- ===== src/Untouched.antt =====
-- The parts of the kernel's state that its commands leave as they are, and the facts about it that they
-- keep, whether or not `malloc` fails: what these are, and how they carry over to commands that are put
-- together.
pub mod Switching
pub mod Processes
pub mod Terminals
pub mod Cvars
pub mod Pipes
pub mod Semaphores
pub mod Holder
pub mod Locks
pub mod Forked
pub mod Calls
use sc0x3a.Base.{
  ℕ, ◌≡◌, refl, ◌∙◌, Bool, true, false, Option, none, some, List, [], ◌∷◌, if◌then◌else◌, arith,
  find, All, ℤ, Option-cases, inl, inr,
}
use sc0x3a.Kernel.{Kernel, LockInfo}
use sc0x3a.Lock.{lock_at}
use sc0x3a.Pipe.Bounds.{AllFit}
use sc0x3a.Pipe.Stream.{Drains}
use sc0x3a.Semaphore.Balance.{Balanced}
use sc0x3a.Kernel.Monad.{
  M, Keeps, Keeps-bind, Keeps-mono, ◌>>=◌, ◌>>◌, pure, crash, current, malloc, get, put, Outcome,
  done, switched, fault, out_of_fuel, current_lem,
}
use sc0x3a.Quiet.{Quiet, Silent}

-- The process that has taken the lock `n`.
abbrev pub holder : ℕ → List LockInfo → Option ℕ
holder n locks = elim (find (lock_at n) locks) [
  | none ↦ none
  | some l ↦ if l.locked then some l.pid else none
]

-- A part of the state that may be left as it is; or what may be kept true: that no pipe is over-full,
-- that the pipe with an id holds the last of some bytes and no other, that the semaphores are balanced,
-- that the lock `n` is held by the process `q`.
pub data Part : Type 0 where
  pids boot locks sems pipes : Part
  fits balanced : Part
  drains : ℤ → List ℕ → Part
  held : ℕ → ℕ → Part

unfoldable pub Kept : Part → Kernel → Kernel → Type 0
Kept pids k k' = k'.next_pid ≡ k.next_pid
Kept boot k k' = k'.boot ≡ k.boot
Kept locks k k' = k'.lock_list ≡ k.lock_list
Kept sems k k' = k'.sem_list ≡ k.sem_list
Kept pipes k k' = k'.pipe_list ≡ k.pipe_list
Kept fits k k' = AllFit k → AllFit k'
Kept balanced k k' = Balanced k → Balanced k'
Kept (drains id cs) k k' = All (Drains id cs) k.pipe_list → All (Drains id cs) k'.pipe_list
Kept (held n q) k k' = holder n k.lock_list ≡ some q → holder n k'.lock_list ≡ some q

-- All parts are as they were.
pub record Still (k k' : Kernel) : Type 0 where
  pub pids : k'.next_pid ≡ k.next_pid
  pub boot : k'.boot ≡ k.boot
  pub locks : k'.lock_list ≡ k.lock_list
  pub sems : k'.sem_list ≡ k.sem_list
  pub pipes : k'.pipe_list ≡ k.pipe_list

pub Kept-of_Still : (x : Part) (k k' : Kernel) → Still k k' → Kept x k k'
unfolding Kept
Kept-of_Still pids k k' s = s.pids
Kept-of_Still boot k k' s = s.boot
Kept-of_Still locks k k' s = s.locks
Kept-of_Still sems k k' s = s.sems
Kept-of_Still pipes k k' s = s.pipes
Kept-of_Still fits k k' s = λ h. rw (s.pipes) h
Kept-of_Still balanced k k' s = λ h. rw (s.sems) h
Kept-of_Still (drains id cs) k k' s = λ h. rw (s.pipes) h
Kept-of_Still (held n q) k k' s = λ h. rw (s.locks) h

pub Kept-trans : (x : Part) (k₁ k₂ k₃ : Kernel) → Kept x k₁ k₂ → Kept x k₂ k₃ → Kept x k₁ k₃
unfolding Kept
Kept-trans pids k₁ k₂ k₃ p q = q ∙ p
Kept-trans boot k₁ k₂ k₃ p q = q ∙ p
Kept-trans locks k₁ k₂ k₃ p q = q ∙ p
Kept-trans sems k₁ k₂ k₃ p q = q ∙ p
Kept-trans pipes k₁ k₂ k₃ p q = q ∙ p
Kept-trans fits k₁ k₂ k₃ p q = λ h. q (p h)
Kept-trans balanced k₁ k₂ k₃ p q = λ h. q (p h)
Kept-trans (drains id cs) k₁ k₂ k₃ p q = λ h. q (p h)
Kept-trans (held n l) k₁ k₂ k₃ p q = λ h. q (p h)

pub Kept-refl : (x : Part) (k : Kernel) → Kept x k k
Kept-refl x k = Kept-of_Still x k k (ground arith)

-- A command that leaves the part as it is, whatever it starts from.
unfoldable pub Leaves : {A : Type 0} → Part → M A → Type 0
Leaves x m = (k : Kernel) → Keeps (Kept x k) (m k)

module _ (x : Part) where
  pub Leaves-of_Still : {A : Type 0} (m : M A) → ((k : Kernel) → Keeps (Still k) (m k)) → Leaves x m
  unfolding Leaves
  Leaves-of_Still m s k = Keeps-mono (Still k) (Kept x k) (m k) (s k) (Kept-of_Still x k)

  pub Leaves-of_Silent : {A : Type 0} (m : M A) → Silent m → Leaves x m
  unfolding Silent
  Leaves-of_Silent m s = Leaves-of_Still m λ k. Keeps-mono (Quiet k) (Still k) (m k) (s k) λ k' q.
      record { pids = q.pids; boot = q.boot; locks = q.locks; sems = q.sems; pipes = q.pipes }

  pub Leaves-bind :
      {A B : Type 0} (m : M A) (f : A → M B)
      → Leaves x m
      → ((a : A) → Leaves x (f a))
      → Leaves x (m >>= f)
  unfolding Leaves
  Leaves-bind m f first next k =
      Keeps-bind (Kept x k) (Kept x k) (m k) f (first k) (λ k₁ q. q)
        λ a k₁ q.
          Keeps-mono (Kept x k₁) (Kept x k) (f a k₁) (next a k₁) (λ k₂. Kept-trans x k k₁ k₂ q)

  pub Leaves-if :
      {A : Type 0} (b : Bool) (m n : M A) → Leaves x m → Leaves x n → Leaves x (if b then m else n)
  Leaves-if true m n p q = p
  Leaves-if false m n p q = q

  pub Leaves-elim :
      {A B : Type 0} (o : Option A) (m : M B) (f : A → M B)
      → Leaves x m
      → ((a : A) → Leaves x (f a))
      → Leaves x (elim o [ none ↦ m | some a ↦ f a ])
  Leaves-elim none m f p q = p
  Leaves-elim (some a) m f p q = q a

  pub Leaves-elim_list :
      {A B : Type 0} (l : List A) (m : M B) (f : A → List A → M B)
      → Leaves x m
      → ((a : A) (more : List A) → Leaves x (f a more))
      → Leaves x (elim l [ [] ↦ m | a ∷ more ↦ f a more ])
  Leaves-elim_list [] m f p q = p
  Leaves-elim_list (a ∷ more) m f p q = q a more

  pub Leaves-pure : {A : Type 0} (a : A) → Leaves x (pure a)
  unfolding Leaves
  Leaves-pure a k = Kept-refl x k

  pub Leaves-get : Leaves x get
  unfolding Leaves
  Leaves-get k = Kept-refl x k

  pub Leaves-crash : (A : Type 0) → Leaves {A = A} x crash
  unfolding Leaves
  Leaves-crash A k = tt

  pub Leaves-out_of_fuel : (A : Type 0) → Leaves {A = A} x (λ _. out_of_fuel)
  unfolding Leaves
  Leaves-out_of_fuel A k = tt

  pub Leaves-current : Leaves x current
  Leaves-current = Leaves-of_Still current λ k. ground arith

  pub Leaves-malloc : Leaves x malloc
  unfolding malloc
  Leaves-malloc = Leaves-of_Still malloc λ k. ground arith

  -- The state is changed in place, and `m` follows.
  pub Leaves-modify :
      {A : Type 0} (g : Kernel → Kernel) (m : Kernel → M A)
      → ((k : Kernel) → Kept x k (g k))
      → ((k : Kernel) → Leaves x (m k))
      → Leaves x (get >>= λ k. put (g k) >>= λ _. m k)
  unfolding Leaves
  Leaves-modify g m q s k =
      Keeps-mono (Kept x (g k)) (Kept x k) (m k (g k)) (s k (g k))
        λ k₂ r. Kept-trans x k (g k) k₂ (q k) r

  pub Leaves-edit :
      {A : Type 0} (g : Kernel → Kernel) (m : Kernel → M A)
      → ((k : Kernel) → Still k (g k))
      → ((k : Kernel) → Leaves x (m k))
      → Leaves x (get >>= λ k. put (g k) >>= λ _. m k)
  Leaves-edit g m q s = Leaves-modify g m (λ k. Kept-of_Still x k (g k) (q k)) s

  pub Leaves-at : {A : Type 0} (m : M A) → Leaves x m → (k : Kernel) → Keeps (Kept x k) (m k)
  unfolding Leaves
  Leaves-at m s k = s k

  pub Leaves-from :
      {A : Type 0} (m : M A) (k k₁ : Kernel) → Leaves x m → Kept x k k₁ → Keeps (Kept x k) (m k₁)
  unfolding Leaves
  Leaves-from m k k₁ s e =
      Keeps-mono (Kept x k₁) (Kept x k) (m k₁) (s k₁) λ k₂. Kept-trans x k k₁ k₂ e

  pub Leaves-read :
      {A : Type 0} (f : Kernel → M A)
      → ((k : Kernel) → Keeps (Kept x k) (f k k))
      → Leaves x (get >>= f)
  unfolding Leaves
  Leaves-read f next = next

  -- The state and the process that runs are read, and what follows is seen from that state.
  pub Leaves-snapshot :
      {A : Type 0} (f : Kernel → ℕ → M A)
      → ((k : Kernel) (p : ℕ) → k.active_proc ≡ some p → Keeps (Kept x k) (f k p k))
      → Leaves x (get >>= λ k. current >>= λ p. f k p)
  unfolding Leaves
  Leaves-snapshot f next k = elim (Option-cases k.active_proc) [
    | inl e ↦ let idle : current k ≡ fault = ground arith in rw (idle) tt
    | inr (p, e) ↦ rw (current_lem k p e) (next k p e)
  ]

pub Keeps-and :
    {A : Type 0} (P Q : Kernel → Type 0) (r : Outcome A)
    → Keeps P r
    → Keeps Q r
    → Keeps (λ k. P k × Q k) r
Keeps-and P Q (done a k) p q = (p, q)
Keeps-and P Q (switched k) p q = (p, q)
Keeps-and P Q fault p q = tt
Keeps-and P Q out_of_fuel p q = tt

pub Keeps-elim :
    {A B : Type 0} (P : Kernel → Type 0) (k : Kernel) (o : Option A) (m : M B) (f : A → M B)
    → Keeps P (m k)
    → ((a : A) → Keeps P (f a k))
    → Keeps P (elim o as (λ _. M B) [ none ↦ m | some a ↦ f a ] k)
Keeps-elim P k none m f p q = p
Keeps-elim P k (some a) m f p q = q a

pub Keeps-elim_list :
    {A B : Type 0} (P : Kernel → Type 0) (k : Kernel) (l : List A) (m : M B) (f : A → List A → M B)
    → Keeps P (m k)
    → ((a : A) (more : List A) → Keeps P (f a more k))
    → Keeps P (elim l as (λ _. M B) [ [] ↦ m | a ∷ more ↦ f a more ] k)
Keeps-elim_list P k [] m f p q = p
Keeps-elim_list P k (a ∷ more) m f p q = q a more

pub Keeps-current :
    {A : Type 0} (P : Kernel → Type 0) (f : ℕ → M A) (k : Kernel) (p : ℕ)
    → k.active_proc ≡ some p
    → Keeps P (f p k)
    → Keeps P ((current >>= f) k)
Keeps-current P f k p act h = rw (current_lem k p act) h

pub ruleset leaves_rules = (
  Leaves-bind, Leaves-if, Leaves-elim, Leaves-elim_list, Leaves-pure, Leaves-get, Leaves-crash,
  Leaves-out_of_fuel, Leaves-current, Leaves-malloc,
)
