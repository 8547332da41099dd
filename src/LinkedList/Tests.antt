-- ===== src/LinkedList/Tests.antt =====
-- The lists of list.c at a concrete list of two nodes, and the properties there.
use sc0x3a.Base.{
  suc, ◌≡◌, refl, none, some, [], ◌∷◌, arith, pos, if◌then◌else◌, ◌==◌, map, pos_part,
}
use sc0x3a.NodeHeap.{Ptr, null, node, Heap, ok, fault, Returns}
use sc0x3a.NodeHeap.Chain.{Cells, Chain, SameOutside, first}
use sc0x3a.LinkedList.{
  LinkedList, IsList, list_insert, list_remove, list_index, list_visit, list_delete,
}
use sc0x3a.LinkedList.Insert.{Inserted, list_insert_lem}
use sc0x3a.LinkedList.Remove.{Removed, list_remove_lem}
use sc0x3a.LinkedList.Index.{address, list_index_lem, list_visit_lem, list_visit_fault}
use sc0x3a.LinkedList.Delete.{Freed, list_delete_lem}

-- The head at 10 and nodes at 20 and 30; the last is linked to `stop`.
abbrev nodes : Ptr → Heap
nodes stop a =
    if a == 10
    then some (node 7 20)
    else if a == 20
    then some (node 1 30)
    else if a == 30
    then some (node 2 stop)
    else none

abbrev two_list : LinkedList
two_list = record { head = 10; len = 2 }

abbrev cells : Cells
cells = (20, 1) ∷ (30, 2) ∷ []

cells-Chain : (stop : Ptr) → Chain (nodes stop) stop ((10, 7) ∷ cells)
cells-Chain stop =
    (omega arith, refl, refl, (omega arith, refl, refl, (omega arith, refl, refl, tt)))

two_list-IsList : (stop : Ptr) → IsList (nodes stop) two_list stop 7 cells
two_list-IsList stop = record { chain = cells-Chain stop; counted = refl }

list_insert_lem_example :
    Returns
      (Inserted (nodes null) two_list null 7 cells 40 1 5)
      (list_insert 40 (node 0 0) (some two_list) (pos (suc 1)) 5 (nodes null))
list_insert_lem_example =
    list_insert_lem (nodes null) two_list null 40 7 1 5 (node 0 0) cells (two_list-IsList null)
      (omega arith) (omega arith) refl

list_remove_lem_example :
    Returns
      (Removed (nodes null) two_list null 7 cells 1 30 2)
      (list_remove (some two_list) (pos (suc 1)) (nodes null))
list_remove_lem_example =
    list_remove_lem (nodes null) two_list null 7 1 cells 30 2 (two_list-IsList null) refl

list_index_lem_example :
    list_index (some two_list) (pos 2) (nodes null)
    ≡ ok (if pos_part (pos 2) == 0 then null else address cells 1) (nodes null)
list_index_lem_example =
    list_index_lem (nodes null) two_list null 7 cells (pos 2) (two_list-IsList null)

list_visit_lem_example :
    list_visit 3 (first null cells) (nodes null) ≡ ok (some (map (λ x. x.1) cells)) (nodes null)
list_visit_lem_example = list_visit_lem 3 (nodes null) cells (cells-Chain null).3 (omega arith)

list_visit_fault_example : list_visit 3 (first 99 cells) (nodes 99) ≡ fault
list_visit_fault_example =
    list_visit_fault 3 (nodes 99) 99 cells (cells-Chain 99).3 (omega arith) refl (omega arith)

list_delete_lem_example :
    Returns
      (λ (rc, l') g.
        (rc ≡ pos 0)
        × (l' ≡ some (record two_list { len = 0 }))
        × Freed ((10, 7) ∷ cells) g
        × SameOutside ((10, 7) ∷ cells) (nodes null) g)
      (list_delete (some two_list) (nodes null))
list_delete_lem_example = list_delete_lem (nodes null) two_list null 7 cells (two_list-IsList null)
