-- ===== src/Dlist/Frame.antt =====
-- The operations of util/dlist/list.c write only to the nodes of their list.
use toadb.Base.{
  ℕ, ◌≡◌, ◌≢◌, sym, subst, true, false, List, [], ◌∷◌, Option, ◌==◌, mem, arith, Bool-cases, inl,
  inr,
}
use toadb.Dlist.{Heap, add_dlist_tail, pop_dlist_tail_node, del_dlist_node}
use toadb.Dlist.Ring.{Chain, IsRing, mem-cons, mem-head, ne_of_mem, Chain-last, Chain-frame}

-- A node that has the same pointers in two memories.
abbrev pub Same : Heap → Heap → ℕ → Type 0
Same h k i = (k.next i ≡ h.next i) × (k.prev i ≡ h.prev i)

pub IsRing-frame :
    (h k : Heap) (list : Option ℕ) (ids : List ℕ)
    → ((i : ℕ) → mem i ids ≡ true → Same h k i)
    → IsRing h list ids
    → IsRing k list ids
IsRing-frame h k list [] s r = r
IsRing-frame h k list (x ∷ xs) s r = (
  r.0,
  Chain-frame h k x xs x (λ i m. (s i m).0) (λ i m. (s i (mem-cons i x xs m)).1)
      (s x (mem-head x xs)).1 r.1,
  r.2,
)

-- A ring's nodes point to its nodes.
Chain-next :
    (h : Heap) (a : ℕ) (ys : List ℕ) (z n : ℕ)
    → Chain h a ys z
    → mem n (a ∷ ys) ≡ true
    → mem (h.next n) (z ∷ ys) ≡ true
Chain-next h a [] z n c m = ground arith
Chain-next h a (y ∷ ys) z n c m = elim (Bool-cases (a == n)) [
  | inl e ↦ ground arith
  | inr e ↦ let ih = Chain-next h y ys z n c.2 (ground arith) in ground arith
]

Chain-prev :
    (h : Heap) (a : ℕ) (ys : List ℕ) (z n : ℕ)
    → Chain h a ys z
    → mem n ys ≡ true
    → mem (h.prev n) (a ∷ ys) ≡ true
Chain-prev h a [] z n c m = absurd (cc)
Chain-prev h a (y ∷ ys) z n c m = elim (Bool-cases (y == n)) [
  | inl e ↦ ground arith
  | inr e ↦ let ih = Chain-prev h y ys z n c.2 (ground arith) in ground arith
]

IsRing-prev :
    (h : Heap) (list : Option ℕ) (ids : List ℕ) (n : ℕ)
    → IsRing h list ids
    → mem n ids ≡ true
    → mem (h.prev n) ids ≡ true
IsRing-prev h list [] n r m = absurd (cc)
IsRing-prev h list (x ∷ xs) n r m = elim (Bool-cases (x == n)) [
  | inl e ↦ let o = Chain-last h x xs x r.1 in ground arith
  | inr e ↦ Chain-prev h x xs x n r.1 (ground arith)
]

IsRing-next :
    (h : Heap) (list : Option ℕ) (ids : List ℕ) (n : ℕ)
    → IsRing h list ids
    → mem n ids ≡ true
    → mem (h.next n) ids ≡ true
IsRing-next h list [] n r m = absurd (cc)
IsRing-next h list (x ∷ xs) n r m = Chain-next h x xs x n r.1 m

pub add_dlist_tail-frame :
    (h : Heap) (list : Option ℕ) (ids : List ℕ) (node i : ℕ)
    → IsRing h list ids
    → mem i ids ≡ false
    → i ≢ node
    → Same h (add_dlist_tail list node h).2 i
unfolding add_dlist_tail
add_dlist_tail-frame h list [] node i r out ne = rw (r, add_dlist_tail) (ground arith)
add_dlist_tail-frame h list (x ∷ xs) node i r out ne =
    let last = ne_of_mem (h.prev x) i (x ∷ xs) (Chain-last h x xs x r.1) out in
    let first = ne_of_mem x i (x ∷ xs) (mem-head x xs) out in
    subst (λ l. Same h (add_dlist_tail l node h).2 i) (sym r.0) (ground arith)

pub pop_dlist_tail_node-frame :
    (h : Heap) (list : Option ℕ) (ids : List ℕ) (i : ℕ)
    → IsRing h list ids
    → mem i ids ≡ false
    → Same h (pop_dlist_tail_node list h).2 i
unfolding pop_dlist_tail_node
pop_dlist_tail_node-frame h list [] i r out = rw (r, pop_dlist_tail_node) (ground arith)
pop_dlist_tail_node-frame h list (x ∷ xs) i r out =
    let l = IsRing-prev h list (x ∷ xs) x r (mem-head x xs) in
    let a = ne_of_mem (h.prev x) i (x ∷ xs) l out in
    let b =
      ne_of_mem (h.prev (h.prev x)) i (x ∷ xs) (IsRing-prev h list (x ∷ xs) (h.prev x) r l) out in
    let c =
      ne_of_mem (h.next (h.prev x)) i (x ∷ xs) (IsRing-next h list (x ∷ xs) (h.prev x) r l) out in
    subst (λ l. Same h (pop_dlist_tail_node l h).2 i) (sym r.0) (ground arith)

pub del_dlist_node-frame :
    (h : Heap) (list : Option ℕ) (ids : List ℕ) (n i : ℕ)
    → IsRing h list ids
    → mem n ids ≡ true
    → mem i ids ≡ false
    → Same h (del_dlist_node list n h).1 i
unfolding del_dlist_node
del_dlist_node-frame h list [] n i r m out = absurd (cc)
del_dlist_node-frame h list (x ∷ xs) n i r m out =
    let a = ne_of_mem n i (x ∷ xs) m out in
    let b = ne_of_mem (h.prev n) i (x ∷ xs) (IsRing-prev h list (x ∷ xs) n r m) out in
    let c = ne_of_mem (h.next n) i (x ∷ xs) (IsRing-next h list (x ∷ xs) n r m) out in
    subst (λ l. Same h (del_dlist_node l n h).1 i) (sym r.0) (ground arith)
