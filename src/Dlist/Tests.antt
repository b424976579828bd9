-- ===== src/Dlist/Tests.antt =====
-- Runs of util/dlist/list.c.
use toadb.Base.{◌+◌, ◌-◌, ◌==◌, if◌then◌else◌, ◌≡◌, refl, List, [], ◌∷◌, none, some}
use toadb.Dlist.{
  Heap, add_cell_to_list_tail, add_dlist_tail, add_dlist_next, pop_dlist_head_node,
  pop_dlist_tail_node, del_dlist_node,
}
use toadb.Dlist.Ring.{IsRing}
use toadb.Dlist.Operations.{del_dlist_node-first}
use toadb.Dlist.Refine.{DlistOp, Reply, run, replay, all_permitted, run_refines}

abbrev empty_heap : Heap
empty_heap = record { prev = λ i. 0; next = λ i. 0; value = λ i. 0 }

abbrev calls : List DlistOp
calls =
    DlistOp.push_tail 3
    ∷ DlistOp.push_tail 5
    ∷ DlistOp.push_next 4
    ∷ DlistOp.push_tail 6
    ∷ DlistOp.del 5
    ∷ DlistOp.pop_tail
    ∷ DlistOp.pop_head
    ∷ DlistOp.del 4
    ∷ DlistOp.pop_tail
    ∷ DlistOp.pop_head
    ∷ []

run_refines_example :
    let o = run calls none empty_heap in
    (o.0 ≡ (replay calls []).0) × IsRing o.2 o.1 (replay calls []).1
unfolding all_permitted
run_refines_example = run_refines calls empty_heap none [] refl refl

replies :
    (run calls none empty_heap).0
    ≡ Reply.code 1
      ∷ Reply.code 0
      ∷ Reply.code 0
      ∷ Reply.code 0
      ∷ Reply.code 1
      ∷ Reply.node (some 6)
      ∷ Reply.node (some 3)
      ∷ Reply.code 0
      ∷ Reply.node (some 4)
      ∷ Reply.node none
      ∷ []
unfolding run add_dlist_tail add_dlist_next del_dlist_node pop_dlist_tail_node pop_dlist_head_node
replies = refl

abbrev three_nodes : Heap
three_nodes = record {
  prev = λ i. if i == 1 then 3 else i - 1;
  next = λ i. if i == 3 then 1 else i + 1;
  value = λ i. 0;
}

del_dlist_node-first_example :
    let o = del_dlist_node (some 1) 1 three_nodes in
    (o.0 ≡ 1) × IsRing o.1 (some 1) (1 ∷ []) × IsRing o.1 (some 2) (2 ∷ 3 ∷ [])
del_dlist_node-first_example =
    del_dlist_node-first three_nodes (some 1) 1 2 (3 ∷ [])
      (refl, (refl, refl, (refl, refl, (refl, refl))), (refl, (refl, (refl, tt))))

cell_value :
    let o = add_cell_to_list_tail 7 (some 1) 9 three_nodes in
    (o.2.value 7 ≡ 9) × (o.2.next 3 ≡ 7) × (o.2.prev 1 ≡ 7)
unfolding add_cell_to_list_tail
cell_value = (refl, refl, refl)
