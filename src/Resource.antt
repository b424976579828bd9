-- ===== src/Resource.antt =====
-- util/resourceManger/resourceMgr.c and resourceMgr.h: the buffers that a thread has in use, in a
-- list of nodes whose first node is the pool's header, and the nodes free for use in another such
-- list. Memory contexts are left out, and AllocMem's answer is an argument.
mod Invariant
mod Entries
mod Refine
mod Client
mod Tests
use toadb.Base.{
  ℕ, ◌+◌, ◌-◌, ◌≡◌, zero, suc, Bool, ◌&&◌, Option, none, some, ◌==◌, ltb, if◌then◌else◌,
}
use toadb.Dlist.{Heap, init_dlist_node, add_dlist_tail, pop_dlist_tail_node, del_dlist_node}

-- The pool, with the addresses of its two headers, and the memory: the list pointers, and the
-- field header.type and buffer of the nodes.
pub record ResourceOnwerPool : Type 0 where
  pub free_list : ℕ
  pub free_node_num : ℕ
  pub header : ℕ
  pub onwer_resource_num : ℕ
  pub heap : Heap
  pub kind : ℕ → ℕ
  pub buffer : ℕ → ℕ

-- CreateResourceOwnerPool, where AllocMem returns a pool with headers at these addresses.
unfoldable pub create_resource_owner_pool : ℕ → ℕ → Heap → (ℕ → ℕ) → (ℕ → ℕ) → ResourceOnwerPool
create_resource_owner_pool free_list header heap kind buffer = record {
  free_list = free_list;
  free_node_num = 0;
  header = header;
  onwer_resource_num = 0;
  heap = init_dlist_node header (init_dlist_node free_list heap);
  kind = kind;
  buffer = buffer;
}

-- The node, or none for a null pointer, which PopDListTailNode returns for no list only.
unfoldable pub get_resource_owner_node : ℕ → ResourceOnwerPool → Option (ℕ × ResourceOnwerPool)
get_resource_owner_node alloc pool =
    let o = pop_dlist_tail_node (some pool.free_list) pool.heap in
    if ltb 0 pool.free_node_num
    then elim o.0 [
      | none ↦ none
      | some node ↦ some (node, record pool { heap = o.2; free_node_num = pool.free_node_num - 1 })
    ]
    else some (alloc, pool)

unfoldable pub add_resource_owner_node_to_free_list : ℕ → ResourceOnwerPool → ResourceOnwerPool
add_resource_owner_node_to_free_list node pool = record pool {
  heap = (add_dlist_tail (some pool.free_list) node pool.heap).2;
  free_node_num = pool.free_node_num + 1;
}

abbrev pub write : ℕ → ℕ → (ℕ → ℕ) → ℕ → ℕ
write i v f j = if j == i then v else f j

-- PushResourceOwner after the node is found.
unfoldable pub own_node : ℕ → ℕ → ℕ → ResourceOnwerPool → ResourceOnwerPool
own_node buffer kind node pool = record pool {
  kind = write node kind pool.kind;
  buffer = write node buffer pool.buffer;
  heap = (add_dlist_tail (some pool.header) node (init_dlist_node node pool.heap)).2;
  onwer_resource_num = pool.onwer_resource_num + 1;
}

unfoldable pub push_resource_owner : ℕ → ℕ → ℕ → ResourceOnwerPool → Option ResourceOnwerPool
push_resource_owner alloc buffer kind pool = elim (get_resource_owner_node alloc pool) [
  | none ↦ none
  | some (node, pool') ↦ some (own_node buffer kind node pool')
]

-- What ReleaseResourceOwner and PopResourceOwner do with the node that they found.
unfoldable pub disown_node : ℕ → ResourceOnwerPool → ResourceOnwerPool
disown_node node pool = add_resource_owner_node_to_free_list node (record pool {
  heap = (del_dlist_node (some pool.header) node pool.heap).1;
  onwer_resource_num = pool.onwer_resource_num - 1;
})

-- The loop of ReleaseResourceOwner, with `none` when its rounds run out.
unfoldable pub release_loop : ℕ → ℕ → ℕ → ℕ → ResourceOnwerPool → Option (ℕ × ResourceOnwerPool)
release_loop zero buffer kind cur pool = none
release_loop (suc fuel) buffer kind cur pool =
    let rest = release_loop fuel buffer kind (pool.heap.next cur) pool in
    if cur == pool.header
    then some (0, pool)
    else if (pool.buffer cur == buffer) && (pool.kind cur == kind)
    then some (1, disown_node cur pool)
    else rest

unfoldable pub release_resource_owner :
    ℕ → ℕ → ℕ → ResourceOnwerPool → Option (ℕ × ResourceOnwerPool)
release_resource_owner fuel buffer kind pool =
    if pool.onwer_resource_num == 0
    then some (0, pool)
    else release_loop fuel buffer kind (pool.heap.next pool.header) pool

-- What PopResourceOwner returns, the buffer if it writes one, and the pool.
unfoldable pub pop_resource_owner : ResourceOnwerPool → ℕ × Option ℕ × ResourceOnwerPool
pop_resource_owner pool =
    let cur = pool.heap.next pool.header in
    if pool.onwer_resource_num == 0
    then (0, none, pool)
    else if cur == pool.header
    then (0, none, pool)
    else (1, some (pool.buffer cur), disown_node cur pool)
