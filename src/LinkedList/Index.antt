-- ===== src/LinkedList/Index.antt =====
-- `list_index`, and the loops over `next` pointers that start from it, against the sequence.
use sc0x3a.Base.{
  ℕ, zero, suc, ◌-◌, ◌≤◌, ◌<◌, ◌≡◌, ◌≢◌, refl, false, none, some, [], ◌∷◌, map, arith, ◌==◌,
  if◌then◌else◌, length, ℤ, pos, negsuc, pos_part,
}
use sc0x3a.NodeHeap.{Ptr, null, node, Heap, ok, fault, load, load-some}
use sc0x3a.NodeHeap.Chain.{Cells, first, Chain}
use sc0x3a.LinkedList.{LinkedList, IsList, walk, list_index, list_visit}

-- The address of the `n`th node, counted from 0, and NULL where there is none.
abbrev pub address : Cells → ℕ → Ptr
address [] n = null
address ((p, d) ∷ xs) zero = p
address ((p, d) ∷ xs) (suc n) = address xs n

walk_lem :
    (n : ℕ) (h : Heap) (stop p : Ptr) (j : ℕ) (xs : Cells)
    → Chain h stop ((p, j) ∷ xs)
    → n < length xs
    → walk (suc n) p h ≡ ok (address xs n) h
unfolding walk
walk_lem n h stop p j [] c lt = absurd (omega arith)
walk_lem zero h stop p j ((q, d) ∷ xs) c lt = rw (load-some p h (node j q) c.0 c.1)
walk_lem (suc n) h stop p j ((q, d) ∷ xs) c lt =
    rw (load-some p h (node j q) c.0 c.1) (walk_lem n h stop q d xs c.3 (omega arith))

address_above : (xs : Cells) (n : ℕ) → length xs ≤ n → address xs n ≡ null
address_above [] n le = refl
address_above (x ∷ xs) zero le = absurd (omega arith)
address_above (x ∷ xs) (suc n) le = address_above xs n (omega arith)

-- `list_index` returns the address of the element at the location, counted from 1, and NULL at any
-- location that holds none; it changes nothing.
pub list_index_lem :
    (h : Heap) (l : LinkedList) (stop : Ptr) (j : ℕ) (xs : Cells) (location : ℤ)
    → IsList h l stop j xs
    → list_index (some l) location h
      ≡ ok (if pos_part location == 0 then null else address xs (pos_part location - 1)) h
unfolding list_index
list_index_lem h l stop j xs (negsuc n) is = ground arith
list_index_lem h l stop j xs (pos zero) is = ground arith
list_index_lem h l stop j xs (pos (suc n)) is =
    ground (arith, is.counted, address_above xs n, walk_lem n h stop l.head j xs is.chain)

-- A loop over the whole list reads the words of all elements in their order, and ends, if the last
-- node is linked to NULL.
pub list_visit_lem :
    (fuel : ℕ) (h : Heap) (xs : Cells)
    → Chain h null xs
    → length xs < fuel
    → list_visit fuel (first null xs) h ≡ ok (some (map (λ x. x.1) xs)) h
unfolding list_visit
list_visit_lem zero h xs c enough = absurd (omega arith)
list_visit_lem (suc fuel) h [] c enough = ground arith
list_visit_lem (suc fuel) h ((p, d) ∷ xs) c enough =
    let live : (p == null) ≡ false = ground (arith, c.0) in
    rw (live, load-some p h (node d (first null xs)) c.0 c.1)
      (rw (list_visit_lem fuel h xs c.3 (omega arith)))

-- Where the last node is linked to an address that holds no node, as the head's `next` may be, which
-- no code sets before the first insertion, the same loop faults.
pub list_visit_fault :
    (fuel : ℕ) (h : Heap) (stop : Ptr) (xs : Cells)
    → Chain h stop xs
    → stop ≢ null
    → h stop ≡ none
    → length xs < fuel
    → list_visit fuel (first stop xs) h ≡ fault
unfolding list_visit load
list_visit_fault zero h stop xs c live wild enough = absurd (omega arith)
list_visit_fault (suc fuel) h stop [] c live wild enough = ground arith
list_visit_fault (suc fuel) h stop ((p, d) ∷ xs) c live wild enough =
    let here : (p == null) ≡ false = ground (arith, c.0) in
    rw (here, c.1, here, list_visit_fault fuel h stop xs c.3 live wild (omega arith))
