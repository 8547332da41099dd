-- ===== src/LinkedList.antt =====
-- list.h and list.c: the linked list that holds every queue of the kernel.
-- A `struct linked_list` is a value that a function returns anew; `list*` is an `Option` of one,
-- `none` for NULL. `head` points at a node whose data is not used, the elements stand behind it.
-- What `malloc` returns is an argument: the address, `null` if there is no memory, and the contents
-- that the node has before it is written to.
pub mod Insert
pub mod Remove
pub mod Index
pub mod Delete
mod Tests
use mathlib.Core.Option
use sc0x3a.Base.{
  ℕ, zero, suc, List, [], ◌+◌, ◌-◌, ◌≡◌, ◌||◌, Option, none, some, ◌∷◌, ◌==◌, if◌then◌else◌, length,
  ℤ, pos, pos_part, ltb_ℤ, error,
}
use sc0x3a.NodeHeap.{Ptr, null, Node, Heap, Cmd, pure, ◌>>=◌, ◌>>◌, load, store, free, malloc}
use sc0x3a.NodeHeap.Chain.{Cells, Chain}

-- `struct linked_list`
pub record LinkedList : Type 0 where
  pub head : Ptr
  pub len : ℕ

-- `p->next = q` and `p->data = d`
abbrev set_next : Ptr → Ptr → Cmd (Unit {0})
set_next p q = do n ← load p; store p (record n { next = q })

abbrev set_word : Ptr → ℕ → Cmd (Unit {0})
set_word p d = do n ← load p; store p (record n { word = d })

-- `for (i = 0; i < n; i++) curr = (*curr).next;`
walk : ℕ → Ptr → Cmd Ptr
walk zero curr = pure curr
walk (suc n) curr = do c ← load curr; walk n c.next

-- The links that `list_insert` makes behind the node at which its loop stops.
link_new : Ptr → ℕ → Ptr → Cmd (Unit {0})
link_new new_node d curr = do
  c ← load curr
  set_next curr new_node
  set_word new_node d
  set_next new_node c.next

-- The loop of `list_insert` with `n` steps, and the links behind it.
insert_after : ℕ → Ptr → Ptr → ℕ → Cmd (Unit {0})
unfolding walk link_new
insert_after n p new_node d = walk n p >>= link_new new_node d

-- The part of `list_insert` behind its checks.
insert_new : Ptr → Node → LinkedList → ℕ → ℕ → Cmd (ℤ × Option LinkedList)
unfolding insert_after
insert_new fresh junk lst n d = do
  new_node ← malloc fresh junk
  if new_node == null then pure (error, some lst) else do
    insert_after n lst.head new_node d
    pure (pos 0, some (record lst { len = lst.len + 1 }))

pub list_insert : Ptr → Node → Option LinkedList → ℤ → ℕ → Cmd (ℤ × Option LinkedList)
unfolding insert_new
list_insert fresh junk none location d = pure (error, none)
list_insert fresh junk (some lst) location d =
    if ltb_ℤ (pos (lst.len + 1)) location || ltb_ℤ location (pos 1)
    then pure (error, some lst)
    else insert_new fresh junk lst (pos_part location - 1) d

-- The links that `list_remove` makes, with the node that it returns.
unlink_next : Ptr → Cmd Ptr
unlink_next curr = do c ← load curr; t ← load c.next; set_next curr t.next; pure c.next

-- The loop of `list_remove` with `n` steps, and the links behind it.
remove_after : ℕ → Ptr → Cmd Ptr
unfolding walk unlink_next
remove_after n p = walk n p >>= unlink_next

pub list_remove : Option LinkedList → ℤ → Cmd (Ptr × Option LinkedList)
unfolding remove_after
list_remove none location = pure (null, none)
list_remove (some lst) location =
    if ltb_ℤ (pos lst.len) location || ltb_ℤ location (pos 1) then pure (null, some lst) else do
      tmp ← remove_after (pos_part location - 1) lst.head
      pure (tmp, some (record lst { len = lst.len - 1 }))

pub list_index : Option LinkedList → ℤ → Cmd Ptr
unfolding walk
list_index none location = pure null
list_index (some lst) location =
    if ltb_ℤ (pos lst.len) location || ltb_ℤ location (pos 1)
    then pure null
    else walk (pos_part location) lst.head

-- `while (curr != NULL) { ... curr->data ...; curr = curr->next; }`, the loop over a whole list that
-- the kernel's handlers make: the words that it reads. `none` means that the fuel ran out.
pub list_visit : ℕ → Ptr → Cmd (Option (List ℕ))
list_visit zero curr = pure none
list_visit (suc fuel) curr =
    let rest : Cmd (Option (List ℕ)) = (do
      c ← load curr
      ws ← list_visit fuel c.next
      pure (Option.map (λ l. c.word ∷ l) ws)) in
    if curr == null then pure (some []) else rest

-- `for (i = 0; i < n; i++) { curr = nxt; nxt = (*nxt).next; free(curr); }`
free_nodes : ℕ → Ptr → Cmd (Unit {0})
free_nodes zero nxt = pure tt
free_nodes (suc n) nxt = do c ← load nxt; free nxt; free_nodes n c.next

pub list_delete : Option LinkedList → Cmd (ℤ × Option LinkedList)
unfolding free_nodes
list_delete none = pure (error, none)
list_delete (some lst) = do
  free_nodes (lst.len + 1) lst.head
  pure (pos 0, some (record lst { len = 0 }))

-- The list holds the nodes `xs`: they are chained behind the head, whose data is `j`, and the last
-- is linked to `stop`, and `len` counts them.
pub record IsList (h : Heap) (l : LinkedList) (stop : Ptr) (j : ℕ) (xs : Cells) : Type 0 where
  pub chain : Chain h stop ((l.head, j) ∷ xs)
  pub counted : l.len ≡ length xs
