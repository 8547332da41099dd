-- ===== src/LinkedList/Delete.antt =====
-- `list_delete`: the nodes that it frees.
use sc0x3a.Base.{ℕ, suc, ◌+◌, ◌≡◌, refl, true, none, some, [], ◌∷◌, arith, length, pos}
use sc0x3a.NodeHeap.{
  Ptr, node, Heap, write, Returns, load-some, free-some, Returns-mono, Returns-bind,
}
use sc0x3a.NodeHeap.Chain.{Cells, has, first, Chain, SameOutside, Chain-write}
use sc0x3a.LinkedList.{LinkedList, IsList, free_nodes, list_delete}

-- No address of `xs` holds a node.
abbrev pub Freed : Cells → Heap → Type 0
Freed xs g = (a : Ptr) → has a xs ≡ true → g a ≡ none

free_nodes_lem :
    (h : Heap) (stop : Ptr) (xs : Cells)
    → Chain h stop xs
    → Returns (λ _ g. Freed xs g × SameOutside xs h g) (free_nodes (length xs) (first stop xs) h)
unfolding free_nodes
free_nodes_lem h stop [] c = (λ a i. absurd (cc), λ a o. refl)
free_nodes_lem h stop ((p, d) ∷ xs) c =
    let n = node d (first stop xs) in
    rw (load-some p h n c.0 c.1, free-some p n h c.0 c.1)
      (Returns-mono (free_nodes (length xs) (first stop xs) (write h p none))
        (free_nodes_lem (write h p none) stop xs (Chain-write h stop xs p none c.2 c.3))
        λ _ g (freed, same). (
          λ a i. unfold write in ground (arith, freed a, same a),
          λ a o. unfold write in ground (arith, same a),
        ))

-- `list_delete` frees the head and every element, and no other node, and leaves the length 0.
pub list_delete_lem :
    (h : Heap) (l : LinkedList) (stop : Ptr) (j : ℕ) (xs : Cells)
    → IsList h l stop j xs
    → Returns
        (λ (rc, l') g.
          (rc ≡ pos 0)
          × (l' ≡ some (record l { len = 0 }))
          × Freed ((l.head, j) ∷ xs) g
          × SameOutside ((l.head, j) ∷ xs) h g)
        (list_delete (some l) h)
unfolding list_delete
list_delete_lem h l stop j xs is =
    let e : l.len + 1 ≡ length {A = Ptr × ℕ} ((l.head, j) ∷ xs) = omega (arith, is.counted) in
    rw e (
      Returns-bind _ _ (free_nodes (suc (length xs)) l.head h) _
        (free_nodes_lem h stop ((l.head, j) ∷ xs) is.chain)
        λ _ g (freed, same). (refl, refl, freed, same))
