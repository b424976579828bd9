-- ===== src/Dlist/Refine.antt =====
-- Every use of util/dlist/list.c as the same calls on a list of nodes.
use toadb.Base.{
  ℕ, ◌≡◌, refl, sym, ap, subst, Bool, true, not, ◌&&◌, List, [], ◌∷◌, ◌++◌, Option, none, some,
  ◌==◌, last, init, init-last, mem, arith, Bool-cases, inl, inr,
}
use toadb.Dlist.{
  Heap, add_dlist_tail, add_dlist_next, pop_dlist_head_node, pop_dlist_tail_node, del_dlist_node,
}
use toadb.Dlist.Ring.{IsRing}
use toadb.Dlist.Operations.{
  remove, insert_second, add_dlist_tail-IsRing, add_dlist_next-IsRing, pop_dlist_head_node-IsRing,
  pop_dlist_tail_node-IsRing, del_dlist_node-IsRing, del_dlist_node-only,
}

-- The calls and what they return.
pub data DlistOp : Type 0 where
  push_tail : ℕ → DlistOp
  push_next : ℕ → DlistOp
  pop_head : DlistOp
  pop_tail : DlistOp
  del : ℕ → DlistOp

pub data Reply : Type 0 where
  code : ℕ → Reply
  node : Option ℕ → Reply

unfoldable step : DlistOp → Option ℕ → Heap → Reply × Option ℕ × Heap
step (DlistOp.push_tail n) list h = let o = add_dlist_tail list n h in (Reply.code o.0, o.1, o.2)
step (DlistOp.push_next n) list h = let o = add_dlist_next list n h in (Reply.code o.0, o.1, o.2)
step DlistOp.pop_head list h = let o = pop_dlist_head_node list h in (Reply.node o.0, o.1, o.2)
step DlistOp.pop_tail list h = let o = pop_dlist_tail_node list h in (Reply.node o.0, o.1, o.2)
step (DlistOp.del n) list h = let o = del_dlist_node list n h in (Reply.code o.0, list, o.1)

-- The same call on a list.
unfoldable abstract_step : DlistOp → List ℕ → Reply × List ℕ
abstract_step (DlistOp.push_tail n) [] = (Reply.code 1, n ∷ [])
abstract_step (DlistOp.push_tail n) (x ∷ xs) = (Reply.code 0, x ∷ xs ++ n ∷ [])
abstract_step (DlistOp.push_next n) xs = (Reply.code 0, insert_second n xs)
abstract_step DlistOp.pop_head [] = (Reply.node none, [])
abstract_step DlistOp.pop_head (x ∷ xs) = (Reply.node (some x), xs)
abstract_step DlistOp.pop_tail [] = (Reply.node none, [])
abstract_step DlistOp.pop_tail (x ∷ xs) = (Reply.node (some (last x xs)), init x xs)
abstract_step (DlistOp.del n) [] = (Reply.code 0, [])
abstract_step (DlistOp.del n) (x ∷ []) = (Reply.code 0, x ∷ [])
abstract_step (DlistOp.del n) (x ∷ y ∷ ys) = (Reply.code 1, x ∷ remove n (y ∷ ys))

-- Nodes are put into a list that does not have them, and taken out of one that does, but not from
-- the front of a longer list.
unfoldable permitted : DlistOp → List ℕ → Bool
permitted (DlistOp.push_tail n) xs = not (mem n xs)
permitted (DlistOp.push_next n) xs = not (mem n xs)
permitted (DlistOp.del n) [] = true
permitted (DlistOp.del n) (x ∷ []) = x == n
permitted (DlistOp.del n) (x ∷ y ∷ ys) = mem n (y ∷ ys)
permitted _ xs = true

mem-split :
    (n : ℕ) (xs : List ℕ)
    → mem n xs ≡ true
    → (ys : List ℕ) × (zs : List ℕ) × (xs ≡ ys ++ n ∷ zs) × (remove n xs ≡ ys ++ zs)
mem-split n [] m = absurd (cc)
mem-split n (x ∷ xs) m = elim (Bool-cases (x == n)) [
  | inl e ↦ ([], xs, ground arith, rw e refl)
  | inr e ↦
      let o = mem-split n xs (ground arith) in (x ∷ o.0, o.1, ap (◌∷◌ x) o.2, rw e (ap (◌∷◌ x) o.3))
]

abbrev Agrees : Reply × Option ℕ × Heap → Reply × List ℕ → Type 0
Agrees o a = (o.0 ≡ a.0) × IsRing o.2 o.1 a.1

step_refines :
    (op : DlistOp) (h : Heap) (list : Option ℕ) (ids : List ℕ)
    → IsRing h list ids
    → permitted op ids ≡ true
    → Agrees (step op list h) (abstract_step op ids)
unfolding step abstract_step permitted pop_dlist_head_node pop_dlist_tail_node del_dlist_node
step_refines (DlistOp.push_tail n) h list [] r p =
    let o = add_dlist_tail-IsRing h list [] n r refl in (ap Reply.code o.1, o.0)
step_refines (DlistOp.push_tail n) h list (x ∷ xs) r p =
    let o = add_dlist_tail-IsRing h list (x ∷ xs) n r (ground arith) in (ap Reply.code o.1, o.0)
step_refines (DlistOp.push_next n) h list ids r p =
    let o = add_dlist_next-IsRing h list ids n r (ground arith) in (ap Reply.code o.1, o.0)
step_refines DlistOp.pop_head h list [] r p = rw (r, pop_dlist_head_node) (refl, refl)
step_refines DlistOp.pop_head h list (x ∷ xs) r p =
    let o = pop_dlist_head_node-IsRing h list x xs r in (ap Reply.node o.1, o.0)
step_refines DlistOp.pop_tail h list [] r p = rw (r, pop_dlist_tail_node) (refl, refl)
step_refines DlistOp.pop_tail h list (x ∷ xs) r p =
    let o =
      pop_dlist_tail_node-IsRing h list (init x xs) (last x xs)
        (subst (IsRing h list) (init-last x xs) r) in
    (ap Reply.node o.1, o.0)
step_refines (DlistOp.del n) h list [] r p = rw (r, del_dlist_node) (refl, refl)
step_refines (DlistOp.del n) h list (x ∷ []) r p =
    let same : x ≡ n = ground arith in
    subst (λ m. Agrees (step (DlistOp.del m) list h) (Reply.code 0, x ∷ [])) same
      (rw (del_dlist_node-only h list x r) (refl, r))
step_refines (DlistOp.del n) h list (x ∷ y ∷ ys) r p =
    let s = mem-split n (y ∷ ys) p in
    let o = del_dlist_node-IsRing h list x s.0 n s.1 (subst (λ l. IsRing h list (x ∷ l)) s.2 r) in
    (ap Reply.code o.1, subst (λ l. IsRing (del_dlist_node list n h).1 list (x ∷ l)) (sym s.3) o.0)

unfoldable pub run : List DlistOp → Option ℕ → Heap → List Reply × Option ℕ × Heap
unfolding step
run [] list h = ([], list, h)
run (op ∷ ops) list h =
    let o = step op list h in let rest = run ops o.1 o.2 in (o.0 ∷ rest.0, rest.1, rest.2)

unfoldable pub replay : List DlistOp → List ℕ → List Reply × List ℕ
unfolding abstract_step
replay [] ids = ([], ids)
replay (op ∷ ops) ids =
    let o = abstract_step op ids in let rest = replay ops o.1 in (o.0 ∷ rest.0, rest.1)

unfoldable pub all_permitted : List DlistOp → List ℕ → Bool
unfolding abstract_step permitted
all_permitted [] ids = true
all_permitted (op ∷ ops) ids = permitted op ids && all_permitted ops (abstract_step op ids).1

-- From a ring of different nodes, any calls of AddDListTail, AddDListNext, PopDListHeadNode,
-- PopDListTailNode and DelDListNode that put in nodes not in the list, and delete nodes in it
-- but not the first of a longer one, return what the same calls on a list of nodes return, and
-- leave the ring of that list.
pub run_refines :
    (ops : List DlistOp) (h : Heap) (list : Option ℕ) (ids : List ℕ)
    → IsRing h list ids
    → all_permitted ops ids ≡ true
    → let o = run ops list h in (o.0 ≡ (replay ops ids).0) × IsRing o.2 o.1 (replay ops ids).1
unfolding run replay all_permitted
run_refines [] h list ids r p = (refl, r)
run_refines (op ∷ ops) h list ids r p =
    let s = step_refines op h list ids r (ground arith) in
    let o = step op list h in
    let ih = run_refines ops o.2 o.1 (abstract_step op ids).1 s.1 (ground arith) in
    (ground arith, ih.1)
