-- ===== src/Dlist/Operations.antt =====
-- What each operation of util/dlist/list.c does to the ring of a list.
use toadb.Base.{
  ℕ, ◌≡◌, refl, ◌≢◌, ◌∙◌, sym, ap, subst, false, List, [], ◌∷◌, ◌++◌, Option, some, ◌==◌, mem,
  append-nil, arith, if◌then◌else◌,
}
use toadb.Dlist.{
  Heap, set_prev, set_next, add_dlist_tail, add_dlist_next, pop_dlist_head_node, detach,
  pop_dlist_tail_node, del_dlist_node,
}
use toadb.Dlist.Ring.{
  Chain, IsRing, mem-cons, mem-head, ne_of_mem, IsFresh-append, AreApart, IsFresh-AreApart,
  IsFresh-remove, Chain-append, Chain-split, Chain-last, Chain-frame, Chain-retarget,
}

-- The list that is left when an id is taken out, once.
abbrev pub remove : ℕ → List ℕ → List ℕ
remove n [] = []
remove n (x ∷ xs) = if x == n then xs else x ∷ remove n xs

abbrev pub insert_second : ℕ → List ℕ → List ℕ
insert_second n [] = n ∷ []
insert_second n (x ∷ xs) = x ∷ n ∷ xs

-- The result of an insertion, which returns `code`, and of a pop, whose node points to itself.
abbrev pub IsAdded : ℕ → List ℕ → ℕ × Option ℕ × Heap → Type 0
IsAdded code ids o = IsRing o.2 o.1 ids × (o.0 ≡ code)

abbrev pub IsAlone : Heap → ℕ → Type 0
IsAlone h node = (h.next node ≡ node) × (h.prev node ≡ node)

abbrev pub IsPopped : ℕ → List ℕ → Option ℕ × Option ℕ × Heap → Type 0
IsPopped node ids o = IsRing o.2 o.1 ids × (o.0 ≡ some node) × IsAlone o.2 node

pub add_dlist_tail-IsRing :
    (h : Heap) (list : Option ℕ) (ids : List ℕ) (node : ℕ)
    → IsRing h list ids
    → mem node ids ≡ false
    → IsAdded (elim ids [ [] ↦ 1 | _ ∷ _ ↦ 0 ]) (ids ++ node ∷ []) (add_dlist_tail list node h)
unfolding add_dlist_tail
add_dlist_tail-IsRing h list [] node r out =
    rw (r, add_dlist_tail) ((refl, (ground arith, ground arith), (refl, tt)), refl)
add_dlist_tail-IsRing h list (x ∷ xs) node r out =
    let k : Heap = (add_dlist_tail (some x) node h).2 in
    let last = Chain-last h x xs x r.1 in
    let away : (node ≢ h.prev x) = λ e. ne_of_mem (h.prev x) node (x ∷ xs) last out (sym e) in
    let apart : (node ≢ x) = λ e. ne_of_mem x node (x ∷ xs) (mem-head x xs) out (sym e) in
    let c : Chain k x xs node =
      Chain-retarget h k x xs x node
        (λ i m ne. let o = ne_of_mem i node (x ∷ xs) m out in ground arith)
        (λ i m.
          let o = ne_of_mem i node (x ∷ xs) (mem-cons i x xs m) out in
          let o2 = ne_of_mem i x xs m r.2.0 in ground arith)
        (ground arith) (ground arith) r.2 r.1 in
    rw (r.0, add_dlist_tail)
      (
        (
          refl,
          Chain-append k x xs node [] x c (ground arith, ground arith),
          IsFresh-append (x ∷ xs) node r.2 out,
        ),
        refl,
      )

pub add_dlist_next-IsRing :
    (h : Heap) (list : Option ℕ) (ids : List ℕ) (node : ℕ)
    → IsRing h list ids
    → mem node ids ≡ false
    → IsAdded 0 (insert_second node ids) (add_dlist_next list node h)
unfolding add_dlist_next
add_dlist_next-IsRing h list [] node r out =
    rw (r, add_dlist_next) ((refl, (ground arith, ground arith), (refl, tt)), refl)
add_dlist_next-IsRing h list (x ∷ []) node r out =
    rw (r.0, add_dlist_next)
      (
        (
          refl,
          (ground arith, ground arith, (ground arith, ground arith)),
          (ground arith, (ground arith, tt)),
        ),
        refl,
      )
add_dlist_next-IsRing h list (x ∷ y ∷ ys) node r out =
    let k : Heap = (add_dlist_next (some x) node h).2 in
    let c : Chain k y ys x =
      Chain-frame h k y ys x
        (λ i m.
          let o = ne_of_mem i node (x ∷ y ∷ ys) (mem-cons i x (y ∷ ys) m) out in
          let o2 = ne_of_mem i x (y ∷ ys) m r.2.0 in ground arith)
        (λ i m.
          let o = ne_of_mem i node (x ∷ y ∷ ys) (mem-cons i x (y ∷ ys) (mem-cons i y ys m)) out in
          let o2 = ne_of_mem i y ys m r.2.1.0 in ground arith)
        (ground arith) r.1.2 in
    subst (λ l. IsAdded 0 (x ∷ node ∷ y ∷ ys) (add_dlist_next l node h)) (sym r.0)
      (
        (
          refl,
          (ground arith, ground arith, (ground arith, ground arith, c)),
          (ground arith, (ground arith, r.2.1)),
        ),
        refl,
      )

pub pop_dlist_head_node-IsRing :
    (h : Heap) (list : Option ℕ) (x : ℕ) (xs : List ℕ)
    → IsRing h list (x ∷ xs)
    → IsPopped x xs (pop_dlist_head_node list h)
unfolding pop_dlist_head_node
pop_dlist_head_node-IsRing h list x [] r = rw (r.0, pop_dlist_head_node, r.1.0) (ground arith)
pop_dlist_head_node-IsRing h list x (y ∷ ys) r =
    let k : Heap = detach x (set_next (h.prev x) y (set_prev y (h.prev x) h)) in
    let one : (x ≢ y) = ground arith in
    let last = Chain-last h y ys x r.1.2 in
    let away : (h.prev x ≢ x) = ne_of_mem (h.prev x) x (y ∷ ys) last r.2.0 in
    let e : pop_dlist_head_node (some x) h ≡ (some x, some y, k) = ground arith in
    let c : Chain k y ys y =
      Chain-retarget h k y ys x y
        (λ i m ne. let o2 = ne_of_mem i x (y ∷ ys) m r.2.0 in ground arith)
        (λ i m.
          let o = ne_of_mem i x (y ∷ ys) (mem-cons i y ys m) r.2.0 in
          let o2 = ne_of_mem i y ys m r.2.1.0 in ground arith)
        (ground arith) (ground arith) r.2.1 r.1.2 in
    subst (IsPopped x (y ∷ ys)) (sym (ap (λ l. pop_dlist_head_node l h) r.0 ∙ e))
      ((refl, c, r.2.1), refl, (ground arith, ground arith))

-- The memory after the links around a node skip it.
abbrev unlinked : ℕ → Heap → Heap
unlinked n h = detach n (set_next (h.prev n) (h.next n) (set_prev (h.next n) (h.prev n) h))

-- The two parts of a ring around a node other than the first.
module _ (h : Heap) (x : ℕ) (ys : List ℕ) (n : ℕ) where
  unlinked-Chain :
      (zs : List ℕ)
      → Chain h x ys n
      → Chain h n zs x
      → AreApart (x ∷ ys) n zs
      → Chain (unlinked n h) x (ys ++ zs) x
  unlinked-Chain [] c d f =
      let k = unlinked n h in
      let last = Chain-last h x ys n c in
      let away = ne_of_mem (h.prev n) n (x ∷ ys) last f.not_before in
      let first = ne_of_mem x n (x ∷ ys) (mem-head x ys) f.not_before in
      subst (λ l. Chain k x l x) (sym (append-nil ys))
        (Chain-retarget h k x ys n x
          (λ i m ne. let o = ne_of_mem i n (x ∷ ys) m f.not_before in ground arith)
          (λ i m.
            let o = ne_of_mem i n (x ∷ ys) (mem-cons i x ys m) f.not_before in
            let o2 = ne_of_mem i x ys m f.before.0 in ground arith)
          (ground arith) (ground arith) f.before c)
  unlinked-Chain (z ∷ zs) c d f =
      let k = unlinked n h in
      let last = Chain-last h x ys n c in
      let away = ne_of_mem (h.prev n) n (x ∷ ys) last f.not_before in
      let first = ne_of_mem x n (x ∷ ys) (mem-head x ys) f.not_before in
      let apart : (z ≢ n) = ne_of_mem z n (z ∷ zs) (mem-head z zs) f.not_after in
      let start = f.disjoint x (mem-head x ys) in
      Chain-append k x ys z zs x
        (Chain-retarget h k x ys n z
          (λ i m ne. let o = ne_of_mem i n (x ∷ ys) m f.not_before in ground arith)
          (λ i m.
            let o = ne_of_mem i n (x ∷ ys) (mem-cons i x ys m) f.not_before in
            let o2 = f.disjoint i (mem-cons i x ys m) in ground arith)
          (ground arith) (ground arith) f.before c)
        (Chain-frame h k z zs x
          (λ i m.
            let o = ne_of_mem i n (z ∷ zs) m f.not_after in
            let o2 = f.disjoint (h.prev n) last in
            let o3 = ne_of_mem i (h.prev n) (z ∷ zs) m o2 in ground arith)
          (λ i m.
            let o = ne_of_mem i n (z ∷ zs) (mem-cons i z zs m) f.not_after in
            let o2 = ne_of_mem i z zs m f.after.0 in ground arith)
          (ground arith) d.2)

module _ (h : Heap) (list : Option ℕ) where
  pub pop_dlist_tail_node-IsRing :
      (xs : List ℕ) (n : ℕ)
      → IsRing h list (xs ++ n ∷ [])
      → IsPopped n xs (pop_dlist_tail_node list h)
  unfolding pop_dlist_tail_node
  pop_dlist_tail_node-IsRing [] n r = rw (r.0, pop_dlist_tail_node, r.1.1) (ground arith)
  pop_dlist_tail_node-IsRing (x ∷ ys) n r =
      let k = unlinked n h in
      let c = Chain-split h x ys n [] x r.1 in
      let f = IsFresh-AreApart (x ∷ ys) n [] r.2 in
      let last = Chain-last h x ys n c.0 in
      let away = ne_of_mem (h.prev n) n (x ∷ ys) last f.not_before in
      let first = ne_of_mem x n (x ∷ ys) (mem-head x ys) f.not_before in
      let e : pop_dlist_tail_node (some x) h ≡ (some n, some x, k) = ground arith in
      let c' = unlinked-Chain h x ys n [] c.0 c.1 f in
      subst (IsPopped n (x ∷ ys)) (sym (ap (λ l. pop_dlist_tail_node l h) r.0 ∙ e)) (
        (refl, subst (λ l. Chain k x l x) (append-nil ys) c', f.before),
        refl,
        (ground arith, ground arith),
      )

  pub del_dlist_node-IsRing :
      (x : ℕ) (ys : List ℕ) (n : ℕ) (zs : List ℕ)
      → IsRing h list (x ∷ ys ++ n ∷ zs)
      → let o = del_dlist_node list n h in
        IsRing o.1 list (x ∷ ys ++ zs) × (o.0 ≡ 1) × IsAlone o.1 n
  unfolding del_dlist_node
  del_dlist_node-IsRing x ys n zs r =
      let k = unlinked n h in
      let c = Chain-split h x ys n zs x r.1 in
      let f = IsFresh-AreApart (x ∷ ys) n zs r.2 in
      let last = Chain-last h x ys n c.0 in
      let away = ne_of_mem (h.prev n) n (x ∷ ys) last f.not_before in
      let e : del_dlist_node (some x) n h ≡ (1, k) = ground arith in
      subst (λ o. IsRing o.1 list (x ∷ ys ++ zs) × (o.0 ≡ 1) × IsAlone o.1 n)
        (sym (ap (λ l. del_dlist_node l n h) r.0 ∙ e))
        (
          (r.0, unlinked-Chain h x ys n zs c.0 c.1 f, IsFresh-remove (x ∷ ys) n zs r.2),
          refl,
          (ground arith, ground arith),
        )

  pub del_dlist_node-only : (x : ℕ) → IsRing h list (x ∷ []) → del_dlist_node list x h ≡ (0, h)
  unfolding del_dlist_node
  del_dlist_node-only x r = rw (r.0, del_dlist_node) (ground arith)

  -- DelDListNode of the first node of a list of two or more nodes returns 1 and leaves the
  -- list at the removed node, which is a ring of its own, while the other nodes are another
  -- ring.
  pub del_dlist_node-first :
      (x y : ℕ) (ys : List ℕ)
      → IsRing h list (x ∷ y ∷ ys)
      → let o = del_dlist_node list x h in
        (o.0 ≡ 1) × IsRing o.1 list (x ∷ []) × IsRing o.1 (some y) (y ∷ ys)
  unfolding del_dlist_node
  del_dlist_node-first x y ys r =
      let k = unlinked x h in
      let last = Chain-last h y ys x r.1.2 in
      let away : (h.prev x ≢ x) = ne_of_mem (h.prev x) x (y ∷ ys) last r.2.0 in
      let one : (x ≢ y) = ground arith in
      let e : del_dlist_node (some x) x h ≡ (1, k) = ground arith in
      let c : Chain k y ys y =
        Chain-retarget h k y ys x y
          (λ i m ne. let o2 = ne_of_mem i x (y ∷ ys) m r.2.0 in ground arith)
          (λ i m.
            let o = ne_of_mem i x (y ∷ ys) (mem-cons i y ys m) r.2.0 in
            let o2 = ne_of_mem i y ys m r.2.1.0 in ground arith)
          (ground arith) (ground arith) r.2.1 r.1.2 in
      subst (λ o. (o.0 ≡ 1) × IsRing o.1 list (x ∷ []) × IsRing o.1 (some y) (y ∷ ys))
        (sym (ap (λ l. del_dlist_node l x h) r.0 ∙ e))
        (refl, (r.0, (ground arith, ground arith), (refl, tt)), (refl, c, r.2.1))
