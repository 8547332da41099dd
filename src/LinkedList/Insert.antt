-- ===== src/LinkedList/Insert.antt =====
-- `list_insert` against the insertion into a sequence.
use sc0x3a.Base.{
  ℕ, zero, suc, ◌+◌, ◌-◌, ◌≤◌, ◌<◌, ◌≡◌, ◌≢◌, refl, ◌∙◌, false, ◌||◌, none, some, [], ◌∷◌, arith,
  ◌==◌, length, insert_at, length-insert_at, ℤ, pos, negsuc, ltb_ℤ, error, pos_part, ◌⊎◌, Option, ℤ,
}
use sc0x3a.NodeHeap.{
  Ptr, null, Node, node, Heap, write, ok, load, store, Returns, load-some, Returns-mono,
  Returns-bind,
}
use sc0x3a.NodeHeap.Chain.{Cells, has, first, Chain, SameOutside, Chain-write, not-has_of_none}
use sc0x3a.LinkedList.{LinkedList, IsList, link_new, insert_after, insert_new, list_insert}

-- The links behind the node where the walk stops.
link_new_lem :
    (h : Heap) (stop p new : Ptr) (j d : ℕ) (junk : Node) (xs : Cells)
    → Chain h stop ((p, j) ∷ xs)
    → new ≢ null
    → h new ≡ some junk
    → has new ((p, j) ∷ xs) ≡ false
    → link_new new d p h
      ≡ ok tt (
          write
            (write (write h p (some (node j new))) new (some (node d junk.next)))
            new
            (some (node d (first stop xs))))
unfolding link_new write load store
link_new_lem h stop p new j d junk xs c live e out = ground arith

has-insert_at :
    (a new : Ptr) (d n : ℕ) (xs : Cells)
    → has a xs ≡ false
    → (a == new) ≡ false
    → has a (insert_at n (new, d) xs) ≡ false
has-insert_at a new d zero xs out ne = ground arith
has-insert_at a new d (suc n) [] out ne = ground arith
has-insert_at a new d (suc n) ((p, e) ∷ xs) out ne = ground (arith, has-insert_at a new d n xs)

-- What the walk and the links establish.
abbrev Linked : Heap → Ptr → Ptr → ℕ → ℕ → Ptr → ℕ → Cells → Heap → Type 0
Linked h stop p j n new d xs g =
    Chain g stop ((p, j) ∷ insert_at n (new, d) xs) × SameOutside ((new, d) ∷ (p, j) ∷ xs) h g

walk_link :
    (n : ℕ) (h : Heap) (stop p new : Ptr) (j d : ℕ) (junk : Node) (xs : Cells)
    → Chain h stop ((p, j) ∷ xs)
    → n ≤ length xs
    → new ≢ null
    → h new ≡ some junk
    → has new ((p, j) ∷ xs) ≡ false
    → Returns (λ _ g. Linked h stop p j n new d xs g) (insert_after n p new d h)
unfolding insert_after
walk_link zero h stop p new j d junk xs c le live e out =
    rw (link_new_lem h stop p new j d junk xs c live e out) (
      (
        c.0,
        unfold write in ground arith,
        ground arith,
        (
          live,
          unfold write in ground arith,
          ground arith,
          Chain-write _ stop xs new _ (ground arith)
              (Chain-write _ stop xs new _ (ground arith) (Chain-write h stop xs p _ c.2 c.3)),
        ),
      ),
      λ a o. unfold write in ground arith,
    )
walk_link (suc n) h stop p new j d junk [] c le live e out = absurd (omega arith)
walk_link (suc n) h stop p new j d junk ((q, e') ∷ ys) c le live e out =
    rw (load-some p h (node j q) c.0 c.1) (
      Returns-mono (insert_after n q new d h)
        (walk_link n h stop q new e' d junk ys c.3 (omega arith) live e (ground arith))
        λ _ g (chain, same). (
          (
            c.0,
            same p (ground arith) ∙ c.1,
            has-insert_at p new d (suc n) ((q, e') ∷ ys) c.2 (ground arith),
            chain,
          ),
          λ a o. same a (ground arith),
        ))

-- What `list_insert` establishes where it puts a new node behind the first `n`.
abbrev pub Inserted :
    Heap → LinkedList → Ptr → ℕ → Cells → Ptr → ℕ → ℕ → ℤ × Option LinkedList → Heap → Type 0
Inserted h l stop j xs new n d (rc, l') g =
    let grown = record l { len = l.len + 1 } in
    (rc ≡ pos 0)
    × (l' ≡ some grown)
    × IsList g grown stop j (insert_at n (new, d) xs)
    × SameOutside ((new, d) ∷ (l.head, j) ∷ xs) h g

insert_new_lem :
    (h : Heap) (l : LinkedList) (stop fresh : Ptr) (j n d : ℕ) (junk : Node) (xs : Cells)
    → IsList h l stop j xs
    → n ≤ length xs
    → fresh ≢ null
    → h fresh ≡ none
    → Returns (Inserted h l stop j xs fresh n d) (insert_new fresh junk l n d h)
unfolding insert_new
insert_new_lem h l stop fresh j n d junk xs is le live unused =
    let out = not-has_of_none h stop ((l.head, j) ∷ xs) fresh unused is.chain in
    let made = write h fresh (some junk) in
    let e : (fresh == null) ≡ false = ground arith in
    rw (e, e)
      (Returns-bind _ _ (insert_after n l.head fresh d made) _
        (walk_link n made stop l.head fresh j d junk xs
          (Chain-write h stop ((l.head, j) ∷ xs) fresh (some junk) out is.chain) le live
          (unfold write in ground arith) out)
        λ _ g (chain, same). (
          refl,
          refl,
          record {
            chain = chain;
            counted = omega (arith, is.counted, length-insert_at n (fresh, d) xs);
          },
          λ a o. same a o ∙ (unfold write in ground arith),
        ))

-- `list_insert` puts a new node at any location from 1 to `len + 1`, keeps the others in their order,
-- counts it, and writes to no node that is not on the list.
pub list_insert_lem :
    (h : Heap) (l : LinkedList) (stop fresh : Ptr) (j n d : ℕ) (junk : Node) (xs : Cells)
    → IsList h l stop j xs
    → n ≤ length xs
    → fresh ≢ null
    → h fresh ≡ none
    → Returns (Inserted h l stop j xs fresh n d) (list_insert fresh junk (some l) (pos (suc n)) d h)
unfolding list_insert
list_insert_lem h l stop fresh j n d junk xs is le live unused =
    let inside : (ltb_ℤ (pos (l.len + 1)) (pos (suc n)) || ltb_ℤ (pos (suc n)) (pos 1)) ≡ false =
      ground (arith, is.counted) in
    let e : suc n - 1 ≡ n = omega arith in
    rw (inside, e) (insert_new_lem h l stop fresh j n d junk xs is le live unused)

-- `list_insert` returns ERROR and changes nothing where the location is below 1 or above `len + 1`,
-- or `malloc` returns NULL.
pub list_insert_fails :
    (h : Heap) (l : LinkedList) (fresh : Ptr) (junk : Node) (location : ℤ) (d : ℕ)
    → (pos_part location ≡ 0) ⊎ (l.len + 1 < pos_part location) ⊎ (fresh ≡ null)
    → list_insert fresh junk (some l) location d h ≡ ok (error, some l) h
unfolding list_insert
list_insert_fails h l fresh junk (pos zero) d bad = ground arith
list_insert_fails h l fresh junk (pos (suc n)) d bad = ground arith
list_insert_fails h l fresh junk (negsuc n) d bad = ground arith
