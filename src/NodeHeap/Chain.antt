-- ===== src/NodeHeap/Chain.antt =====
-- Chains of nodes: the addresses and words of the nodes on a path of `next` pointers.
use sc0x3a.Base.{
  ℕ, ◌≡◌, ◌≢◌, refl, Bool, true, false, ◌||◌, Option, none, some, List, [], ◌∷◌, arith, ◌==◌,
}
use sc0x3a.NodeHeap.{Ptr, null, Node, node, Heap, write}

-- Address and word of each node, in the order of the links.
abbrev pub Cells : Type 0
Cells = List (Ptr × ℕ)

abbrev pub has : Ptr → Cells → Bool
has a [] = false
has a ((p, d) ∷ xs) = (a == p) || has a xs

-- The address that a chain of `xs` ending at `stop` begins with.
abbrev pub first : Ptr → Cells → Ptr
first stop [] = stop
first stop ((p, d) ∷ xs) = p

-- In `h` the nodes `xs` stand at distinct addresses, each linked to the next, the last to `stop`.
abbrev pub Chain : Heap → Ptr → Cells → Type 0
Chain h stop [] = Unit {0}
Chain h stop ((p, d) ∷ xs) =
    (p ≢ null) × (h p ≡ some (node d (first stop xs))) × (has p xs ≡ false) × Chain h stop xs

-- `g` differs from `h` at most at the addresses of `xs`.
abbrev pub SameOutside : Cells → Heap → Heap → Type 0
SameOutside xs h g = (a : Ptr) → has a xs ≡ false → g a ≡ h a

-- A chain survives a change that spares its addresses.
pub Chain-frame :
    (h g : Heap) (stop : Ptr) (xs : Cells)
    → Chain h stop xs
    → ((a : Ptr) → has a xs ≡ true → g a ≡ h a)
    → Chain g stop xs
Chain-frame h g stop [] c same = tt
Chain-frame h g stop ((p, d) ∷ xs) c same =
    (c.0, ground (arith, same p), c.2, Chain-frame h g stop xs c.3 (λ a i. same a (ground arith)))

pub Chain-write :
    (h : Heap) (stop : Ptr) (xs : Cells) (p : Ptr) (c : Option Node)
    → has p xs ≡ false
    → Chain h stop xs
    → Chain (write h p c) stop xs
unfolding write
Chain-write h stop [] p c out chain = tt
Chain-write h stop ((q, d) ∷ xs) p c out chain =
    (chain.0, ground arith, chain.2, Chain-write h stop xs p c (ground arith) chain.3)

-- An address that holds no node is not on a chain.
pub not-has_of_none :
    (h : Heap) (stop : Ptr) (xs : Cells) (p : Ptr) → h p ≡ none → Chain h stop xs → has p xs ≡ false
not-has_of_none h stop [] p e c = refl
not-has_of_none h stop ((q, d) ∷ xs) p e c = ground (arith, not-has_of_none h stop xs p e c.3)
