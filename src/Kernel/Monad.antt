-- ===== src/Kernel/Monad.antt =====
-- Commands over the kernel's state, and the parts that the handlers share: `malloc`, and the calls
-- of list.c that add at the end of a queue and take from its front.
use sc0x3a.Base.{
  ℕ, ◌≡◌, Bool, true, false, Option, none, some, List, [], ◌∷◌, ◌++◌, ◌==◌, if◌then◌else◌, ℤ, pos,
  error, arith,
}
use sc0x3a.Kernel.{Kernel, Pcb}

-- A handler returns a value, or the processor is given to another process, or the kernel follows a
-- pointer that it must not follow, or a loop has used up its fuel.
pub data Outcome {ℓ} (A : Type ℓ) : Type ℓ where
  done : A → Kernel → Outcome A
  switched : Kernel → Outcome A
  fault : Outcome A
  out_of_fuel : Outcome A

abbrev pub M : Type 0 → Type 0
M A = Kernel → Outcome A

abbrev pub pure : {A : Type 0} → A → M A
pure = done

abbrev pub and_then : {A B : Type 0} → Outcome A → (A → M B) → Outcome B
and_then (done a k) f = f a k
and_then (switched k) f = switched k
and_then fault f = fault
and_then out_of_fuel f = out_of_fuel

infixl 5 ◌>>=◌ ◌>>◌
abbrev pub ◌>>=◌ : {A B : Type 0} → M A → (A → M B) → M B
◌>>=◌ m f k = and_then (m k) f

abbrev pub ◌>>◌ : {A B : Type 0} → M A → M B → M B
m >> n = m >>= λ _. n

abbrev pub get : M Kernel
get k = done k k

abbrev pub put : Kernel → M (Unit {0})
put k' k = done tt k'

abbrev pub crash : {A : Type 0} → M A
crash k = fault

-- `active_proc`, where it is dereferenced.
abbrev pub current : M ℕ
current k = elim k.active_proc [ none ↦ fault | some p ↦ done p k ]

abbrev pub set_pcb : (ℕ → Pcb) → ℕ → Pcb → ℕ → Pcb
set_pcb f p v q = if q == p then v else f q

-- `malloc`: whether it returned memory. A failure is an outcome like any other.
unfoldable pub malloc : M Bool
malloc k = elim k.mallocs [ [] ↦ done true k | b ∷ bs ↦ done b (record k { mallocs = bs }) ]

-- `list_insert(&l, l.len+1, d)`: the list with `d` at its end, or as it was with ERROR.
unfoldable pub insert_last {ℓ} : {A : Type ℓ} → List A → A → Bool → List A × ℤ
insert_last xs x true = (xs ++ x ∷ [], pos 0)
insert_last xs x false = (xs, error)

-- `list_insert(&ready_queue, ready_queue.len+1, p)`
unfoldable pub put_ready : ℕ → M ℤ
unfolding malloc insert_last
put_ready p = do
  b ← malloc
  k ← get
  let (queue, rc) = insert_last k.ready_queue p b
  put (record k { ready_queue = queue })
  pure rc

-- `list_remove(&ready_queue, 1)`, `none` for NULL
unfoldable pub take_ready : M (Option ℕ)
take_ready k = elim k.ready_queue [
  | [] ↦ done none k
  | p ∷ ps ↦ done (some p) (record k { ready_queue = ps })
]

-- If the command gives the processor away, the state satisfies `P`; it does not return.
abbrev pub Switches : {A : Type 0} → (Kernel → Type 0) → Outcome A → Type 0
Switches P (done a k) = ⊥
Switches P (switched k) = P k
Switches P fault = Unit {0}
Switches P out_of_fuel = ⊥

-- Whether the command returns or gives the processor away, the state then satisfies `P`.
abbrev pub Keeps : {A : Type 0} → (Kernel → Type 0) → Outcome A → Type 0
Keeps P (done a k) = P k
Keeps P (switched k) = P k
Keeps P fault = Unit {0}
Keeps P out_of_fuel = Unit {0}

pub Keeps-bind :
    {A B : Type 0} (P Q : Kernel → Type 0) (r : Outcome A) (f : A → M B)
    → Keeps P r
    → ((k : Kernel) → P k → Q k)
    → ((a : A) (k : Kernel) → P k → Keeps Q (f a k))
    → Keeps Q (and_then r f)
Keeps-bind P Q (done a k) f p weaken next = next a k p
Keeps-bind P Q (switched k) f p weaken next = weaken k p
Keeps-bind P Q fault f p weaken next = tt
Keeps-bind P Q out_of_fuel f p weaken next = tt

pub Keeps-mono :
    {A : Type 0} (P Q : Kernel → Type 0) (r : Outcome A)
    → Keeps P r
    → ((k : Kernel) → P k → Q k)
    → Keeps Q r
Keeps-mono P Q (done a k) p weaken = weaken k p
Keeps-mono P Q (switched k) p weaken = weaken k p
Keeps-mono P Q fault p weaken = tt
Keeps-mono P Q out_of_fuel p weaken = tt

-- If the command returns, the state satisfies `P`; it does not give the processor away.
abbrev pub Ends : {A : Type 0} → (Kernel → Type 0) → Outcome A → Type 0
Ends P (done a k) = P k
Ends P (switched k) = ⊥
Ends P fault = Unit {0}
Ends P out_of_fuel = ⊥

pub Switches-after :
    {A B : Type 0} (P Q : Kernel → Type 0) (r : Outcome A) (f : A → M B)
    → Ends P r
    → ((a : A) (k : Kernel) → P k → Switches Q (f a k))
    → Switches Q (and_then r f)
Switches-after P Q (done a k) f p next = next a k p
Switches-after P Q (switched k) f p next = absurd p
Switches-after P Q fault f p next = tt
Switches-after P Q out_of_fuel f p next = absurd p

pub Switches-mono :
    {A : Type 0} (P Q : Kernel → Type 0) (r : Outcome A)
    → Switches P r
    → ((k : Kernel) → P k → Q k)
    → Switches Q r
Switches-mono P Q (done a k) p weaken = absurd p
Switches-mono P Q (switched k) p weaken = weaken k p
Switches-mono P Q fault p weaken = tt
Switches-mono P Q out_of_fuel p weaken = absurd p

-- Where `malloc` does not fail, `put_ready` adds to the end of the ready queue.
pub put_ready_lem :
    (p : ℕ) (k : Kernel)
    → k.mallocs ≡ []
    → put_ready p k ≡ done (pos 0) (record k { ready_queue = k.ready_queue ++ p ∷ [] })
unfolding put_ready
put_ready_lem p k m = ground arith

-- The command returns, and its value and the state satisfy `P`.
abbrev pub Does : {A : Type 0} → (A → Kernel → Type 0) → Outcome A → Type 0
Does P (done a k) = P a k
Does P (switched k) = ⊥
Does P fault = ⊥
Does P out_of_fuel = ⊥

pub Does-mono :
    {A : Type 0} (P Q : A → Kernel → Type 0) (r : Outcome A)
    → Does P r
    → ((a : A) (k : Kernel) → P a k → Q a k)
    → Does Q r
Does-mono P Q (done a k) p weaken = weaken a k p
Does-mono P Q (switched k) p weaken = p
Does-mono P Q fault p weaken = p
Does-mono P Q out_of_fuel p weaken = p

pub malloc_lem : (k : Kernel) → k.mallocs ≡ [] → malloc k ≡ done true k
unfolding malloc
malloc_lem k m = ground arith

pub current_lem : (k : Kernel) (p : ℕ) → k.active_proc ≡ some p → current k ≡ done p k
current_lem k p a = ground arith

pub Switches-bind :
    {A B : Type 0} (P : Kernel → Type 0) (r : Outcome A) (f : A → M B)
    → Switches P r
    → Switches P (and_then r f)
Switches-bind P (done a k) f p = absurd p
Switches-bind P (switched k) f p = p
Switches-bind P fault f p = tt
Switches-bind P out_of_fuel f p = absurd p

pub Keeps-of_Switches :
    {A : Type 0} (P : Kernel → Type 0) (r : Outcome A) → Switches P r → Keeps P r
Keeps-of_Switches P (done a k) p = absurd p
Keeps-of_Switches P (switched k) p = p
Keeps-of_Switches P fault p = tt
Keeps-of_Switches P out_of_fuel p = tt

pub Does-bind :
    {A B : Type 0} (P : A → Kernel → Type 0) (Q : B → Kernel → Type 0) (r : Outcome A) (f : A → M B)
    → Does P r
    → ((a : A) (k : Kernel) → P a k → Does Q (f a k))
    → Does Q (and_then r f)
Does-bind P Q (done a k) f p next = next a k p
Does-bind P Q (switched k) f p next = absurd p
Does-bind P Q fault f p next = absurd p
Does-bind P Q out_of_fuel f p next = absurd p
