-- ===== src/LinkedList/Remove.antt =====
-- `list_remove` against the removal from a sequence.
use sc0x3a.Base.{
  ℕ, zero, suc, ◌-◌, ◌<◌, ◌≡◌, ◌⊎◌, refl, ◌∙◌, true, false, ◌||◌, Option, some, [], ◌∷◌, arith,
  length, get_elem?, remove_at, length-remove_at, ℤ, pos, negsuc, pos_part, ltb_ℤ,
}
use sc0x3a.NodeHeap.{
  Ptr, null, node, Heap, write, ok, load, store, Returns, load-some, Returns-mono, Returns-bind,
}
use sc0x3a.NodeHeap.Chain.{Cells, has, first, Chain, SameOutside, Chain-write}
use sc0x3a.LinkedList.{LinkedList, IsList, unlink_next, remove_after, list_remove}

has_of_get_elem? :
    (n : ℕ) (xs : Cells) (x : Ptr) (d : ℕ) → get_elem? xs n ≡ some (x, d) → has x xs ≡ true
has_of_get_elem? n [] x d e = cc
has_of_get_elem? zero (y ∷ xs) x d e = ground arith
has_of_get_elem? (suc n) (y ∷ xs) x d e = ground (arith, has_of_get_elem? n xs x d e)

has-remove_at : (a : Ptr) (n : ℕ) (xs : Cells) → has a xs ≡ false → has a (remove_at n xs) ≡ false
has-remove_at a n [] out = refl
has-remove_at a zero (x ∷ xs) out = ground arith
has-remove_at a (suc n) (x ∷ xs) out = ground (arith, has-remove_at a n xs)

-- What the walk and the links establish; `x` is the address of the node that is taken out.
abbrev Unlinked : Heap → Ptr → Ptr → ℕ → ℕ → Ptr → Cells → Ptr → Heap → Type 0
Unlinked h stop p j n x xs t g =
    (t ≡ x)
    × Chain g stop ((p, j) ∷ remove_at n xs)
    × (g x ≡ h x)
    × (has x ((p, j) ∷ remove_at n xs) ≡ false)
    × SameOutside ((p, j) ∷ xs) h g

unlink_next_lem :
    (h : Heap) (stop p : Ptr) (j : ℕ) (x : Ptr) (d : ℕ) (ys : Cells)
    → Chain h stop ((p, j) ∷ (x, d) ∷ ys)
    → unlink_next p h ≡ ok x (write h p (some (node j (first stop ys))))
unfolding unlink_next load store
unlink_next_lem h stop p j x d ys c = ground arith

remove_after_lem :
    (n : ℕ) (h : Heap) (stop p : Ptr) (j : ℕ) (x : Ptr) (d : ℕ) (xs : Cells)
    → Chain h stop ((p, j) ∷ xs)
    → get_elem? xs n ≡ some (x, d)
    → Returns (Unlinked h stop p j n x xs) (remove_after n p h)
unfolding remove_after
remove_after_lem n h stop p j x d [] c e = absurd (cc)
remove_after_lem zero h stop p j x d ((y, d') ∷ ys) c e =
    rw (unlink_next_lem h stop p j y d' ys c) (
      ground arith,
      (
        c.0,
        unfold write in ground arith,
        ground arith,
        Chain-write h stop ys p _ (ground arith) c.3.3,
      ),
      unfold write in ground arith,
      ground arith,
      λ a o. unfold write in ground arith,
    )
remove_after_lem (suc n) h stop p j x d ((q, e') ∷ ys) c e = rw (load-some p h (node j q) c.0 c.1) (
    Returns-mono (remove_after n q h) (remove_after_lem n h stop q e' x d ys c.3 e)
      λ t g (same_node, chain, kept, out, same). (
        same_node,
        (c.0, same p (ground arith) ∙ c.1, ground (arith, has-remove_at p n ys), chain),
        kept,
        ground (arith, has_of_get_elem? n ys x d e),
        λ a o. same a (ground arith),
      ))

abbrev pub Removed :
    Heap → LinkedList → Ptr → ℕ → Cells → ℕ → Ptr → ℕ → Ptr × Option LinkedList → Heap → Type 0
Removed h l stop j xs n p d (t, l') g =
    let shrunk = record l { len = l.len - 1 } in
    (t ≡ p)
    × (l' ≡ some shrunk)
    × IsList g shrunk stop j (remove_at n xs)
    × ((q : Ptr) × (g p ≡ some (node d q)))
    × (has p ((l.head, j) ∷ remove_at n xs) ≡ false)
    × SameOutside ((l.head, j) ∷ xs) h g

lt-length_of_get_elem? :
    (n : ℕ) (xs : Cells) (x : Ptr × ℕ) → get_elem? xs n ≡ some x → n < length xs
lt-length_of_get_elem? n [] x e = absurd (cc)
lt-length_of_get_elem? zero (y ∷ xs) x e = omega arith
lt-length_of_get_elem? (suc n) (y ∷ xs) x e = omega (arith, lt-length_of_get_elem? n xs x e)

Chain-get_elem? :
    (n : ℕ) (h : Heap) (stop : Ptr) (xs : Cells) (p : Ptr) (d : ℕ)
    → Chain h stop xs
    → get_elem? xs n ≡ some (p, d)
    → (q : Ptr) × (h p ≡ some (node d q))
Chain-get_elem? n h stop [] p d c e = absurd (cc)
Chain-get_elem? zero h stop ((y, d') ∷ xs) p d c e = (first stop xs, ground arith)
Chain-get_elem? (suc n) h stop ((y, d') ∷ xs) p d c e = Chain-get_elem? n h stop xs p d c.3 e

-- `list_remove` at a location from 1 to `len` returns the node that stands there, its data intact,
-- takes it out of the list, keeps the others in their order, and writes to no other node.
pub list_remove_lem :
    (h : Heap) (l : LinkedList) (stop : Ptr) (j n : ℕ) (xs : Cells) (p : Ptr) (d : ℕ)
    → IsList h l stop j xs
    → get_elem? xs n ≡ some (p, d)
    → Returns (Removed h l stop j xs n p d) (list_remove (some l) (pos (suc n)) h)
unfolding list_remove
list_remove_lem h l stop j n xs p d is e =
    let small = lt-length_of_get_elem? n xs (p, d) e in
    let inside : (ltb_ℤ (pos l.len) (pos (suc n)) || ltb_ℤ (pos (suc n)) (pos 1)) ≡ false =
      ground (arith, is.counted) in
    let e' : suc n - 1 ≡ n = omega arith in
    rw (inside, e')
      (Returns-bind _ _ (remove_after n l.head h) _
        (remove_after_lem n h stop l.head j p d xs is.chain e)
        λ t g (same_node, chain, kept, out, same).
          let (q, held) = Chain-get_elem? n h stop xs p d is.chain.3 e in
          (
            same_node,
            refl,
            record {
              chain = chain;
              counted = omega (arith, is.counted, length-remove_at n xs small);
            },
            (q, kept ∙ held),
            out,
            same,
          ))

-- At any other location `list_remove` returns NULL and changes nothing.
pub list_remove_fails :
    (h : Heap) (l : LinkedList) (location : ℤ)
    → (pos_part location ≡ 0) ⊎ (l.len < pos_part location)
    → list_remove (some l) location h ≡ ok (null, some l) h
unfolding list_remove
list_remove_fails h l (pos zero) bad = ground arith
list_remove_fails h l (pos (suc n)) bad = ground arith
list_remove_fails h l (negsuc n) bad = ground arith
