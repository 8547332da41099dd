-- ===== src/NodeHeap.antt =====
-- The kernel heap as list.c uses it (list.h, `node`): nodes at addresses, and commands that read
-- and write them. A command faults on NULL and on an address that holds no node.
pub mod Chain
use sc0x3a.Base.{ℕ, ◌≡◌, ◌≢◌, Option, none, some, ◌==◌, if◌then◌else◌, arith}

abbrev pub Ptr : Type 0
Ptr = ℕ

abbrev pub null : Ptr
null = 0

-- `struct link_node`; `word` is its `void* data`.
pub record Node : Type 0 where
  pub word : ℕ
  pub next : Ptr

abbrev pub node : ℕ → Ptr → Node
node d q = record { word = d; next = q }

abbrev pub Heap : Type 0
Heap = Ptr → Option Node

unfoldable pub write : Heap → Ptr → Option Node → Heap
write h p c a = if a == p then c else h a

pub data Run {ℓ} (A : Type ℓ) : Type ℓ where
  ok : A → Heap → Run A
  fault : Run A

abbrev pub Cmd : Type 0 → Type 0
Cmd A = Heap → Run A

abbrev pub pure : {A : Type 0} → A → Cmd A
pure = ok

abbrev pub and_then : {A B : Type 0} → Run A → (A → Cmd B) → Run B
and_then (ok a h) k = k a h
and_then fault k = fault

infixl 5 ◌>>=◌ ◌>>◌
abbrev pub ◌>>=◌ : {A B : Type 0} → Cmd A → (A → Cmd B) → Cmd B
◌>>=◌ m k h = and_then (m h) k

abbrev pub ◌>>◌ : {A B : Type 0} → Cmd A → Cmd B → Cmd B
m >> n = m >>= λ _. n

-- `*p`
unfoldable pub load : Ptr → Cmd Node
load p h = if p == null then fault else elim (h p) [ none ↦ fault | some n ↦ ok n h ]

-- `*p = n`
unfoldable pub store : Ptr → Node → Cmd (Unit {0})
unfolding load
store p n = do load p; λ h. ok tt (write h p (some n))

-- `free(p)`
unfoldable pub free : Ptr → Cmd (Unit {0})
unfolding load
free p = do load p; λ h. ok tt (write h p none)

-- What `malloc` does where it returns `p`: the node there holds `junk`, whatever stood in memory.
abbrev pub malloc : Ptr → Node → Cmd Ptr
malloc p junk h = if p == null then ok null h else ok p (write h p (some junk))

-- The run ends without a fault, in a value and a heap that satisfy `P`.
abbrev pub Returns : {A : Type 0} → (A → Heap → Type 0) → Run A → Type 0
Returns P (ok a h) = P a h
Returns P fault = ⊥

pub load-some : (p : Ptr) (h : Heap) (n : Node) → p ≢ null → h p ≡ some n → load p h ≡ ok n h
unfolding load
load-some p h n live e = ground arith

pub store-some :
    (p : Ptr) (n m : Node) (h : Heap)
    → p ≢ null
    → h p ≡ some n
    → store p m h ≡ ok tt (write h p (some m))
unfolding store
store-some p n m h live e = ground arith

pub free-some :
    (p : Ptr) (n : Node) (h : Heap) → p ≢ null → h p ≡ some n → free p h ≡ ok tt (write h p none)
unfolding free
free-some p n h live e = ground arith

pub Returns-mono :
    {A : Type 0} {P Q : A → Heap → Type 0} (r : Run A)
    → Returns P r
    → ((a : A) (h : Heap) → P a h → Q a h)
    → Returns Q r
Returns-mono (ok a h) p weaken = weaken a h p
Returns-mono fault p weaken = p

pub Returns-bind :
    {A B : Type 0} (P : A → Heap → Type 0) (Q : B → Heap → Type 0) (r : Run A) (k : A → Cmd B)
    → Returns P r
    → ((a : A) (h : Heap) → P a h → Returns Q (k a h))
    → Returns Q (and_then r k)
Returns-bind P Q (ok a h) k p next = next a h p
Returns-bind P Q fault k p next = p
