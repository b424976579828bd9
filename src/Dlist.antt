-- ===== src/Dlist.antt =====
-- util/dlist/list.c and include/list.h: doubly linked lists. The memory is two functions from the
-- addresses of nodes to the pointers that these hold; a list is the pointer to its first node.
pub mod Ring
pub mod Operations
mod Refine
pub mod Frame
mod Tests
use toadb.Base.{ℕ, ◌≡◌, Option, none, some, ◌==◌, if◌then◌else◌}

-- The nodes, and the values of those that are list cells.
pub record Heap : Type 0 where
  pub prev : ℕ → ℕ
  pub next : ℕ → ℕ
  pub value : ℕ → ℕ

-- The assignments node->prev = p, node->next = p and cell->value = v.
abbrev pub set_prev : ℕ → ℕ → Heap → Heap
set_prev node p h = record h { prev = λ i. if i == node then p else h.prev i }

abbrev pub set_next : ℕ → ℕ → Heap → Heap
set_next node p h = record h { next = λ i. if i == node then p else h.next i }

abbrev pub set_value : ℕ → ℕ → Heap → Heap
set_value node v h = record h { value = λ i. if i == node then v else h.value i }

-- INIT_DLIST_NODE
unfoldable pub init_dlist_node : ℕ → Heap → Heap
init_dlist_node node h = set_next node node (set_prev node node h)

-- What AddDListTail returns, the list and the memory.
unfoldable pub add_dlist_tail : Option ℕ → ℕ → Heap → ℕ × Option ℕ × Heap
add_dlist_tail none node h = (1, some node, set_next node node (set_prev node node h))
add_dlist_tail (some head) node h =
    let h1 = set_next node head h in
    let h2 = set_prev node (h1.prev head) h1 in
    let h3 = set_next (h2.prev head) node h2 in let h4 = set_prev head node h3 in (0, some head, h4)

unfoldable pub add_dlist_next : Option ℕ → ℕ → Heap → ℕ × Option ℕ × Heap
add_dlist_next none node h = (0, some node, set_next node node (set_prev node node h))
add_dlist_next (some head) node h =
    let h1 = set_next node (h.next head) h in
    let h2 = set_prev node head h1 in
    let h3 = set_next head node h2 in let h4 = set_prev (h3.next node) node h3 in (0, some head, h4)

-- `node` is what AllocMem returns.
unfoldable pub add_cell_to_list_tail : ℕ → Option ℕ → ℕ → Heap → ℕ × Option ℕ × Heap
unfolding add_dlist_tail
add_cell_to_list_tail node list ptr h =
    let added = add_dlist_tail list node (set_value node ptr h) in (0, added.1, added.2)

-- Both pops end with node->prev = node->next = node.
abbrev pub detach : ℕ → Heap → Heap
detach node h = set_prev node node (set_next node node h)

-- The node that a pop returns, the list and the memory.
unfoldable pub pop_dlist_head_node : Option ℕ → Heap → Option ℕ × Option ℕ × Heap
pop_dlist_head_node none h = (none, none, h)
pop_dlist_head_node (some node) h =
    let head = h.next node in
    if head == node
    then (some node, none, detach node h)
    else let h1 = set_prev head (h.prev node) h in
      let h2 = set_next (h1.prev node) head h1 in (some node, some head, detach node h2)

unfoldable pub pop_dlist_tail_node : Option ℕ → Heap → Option ℕ × Option ℕ × Heap
pop_dlist_tail_node none h = (none, none, h)
pop_dlist_tail_node (some head) h =
    let node = h.prev head in
    if head == node
    then (some node, none, detach node h)
    else let h1 = set_next (h.prev node) (h.next node) h in
      let h2 = set_prev (h1.next node) (h1.prev node) h1 in (some node, some head, detach node h2)

-- DelDListNode, which does not write to its list.
unfoldable pub del_dlist_node : Option ℕ → ℕ → Heap → ℕ × Heap
del_dlist_node none node h = (0, h)
del_dlist_node (some head) node h =
    if h.prev node == node
    then (0, h)
    else let h1 = set_prev (h.next node) (h.prev node) h in
      let h2 = set_next (h1.prev node) (h1.next node) h1 in
      (1, set_next node node (set_prev node node h2))
