-- ===== src/Resource/Invariant.antt =====
-- The two lists of the pool of resourceMgr.c, and what its operations do to them.
use toadb.Base.{
  ℕ, ◌-◌, ◌≡◌, refl, ◌≢◌, true, false, List, [], ◌∷◌, ◌++◌, some, mem, arith, length, length-append,
  lt→ltb, Bool-cases, inl, inr,
}
use toadb.Dlist.{Heap, init_dlist_node, add_dlist_tail, pop_dlist_tail_node, del_dlist_node}
use toadb.Dlist.Ring.{IsRing, mem-append, ne_of_mem, IsFresh-AreApart}
use toadb.Dlist.Operations.{
  add_dlist_tail-IsRing, pop_dlist_tail_node-IsRing, del_dlist_node-IsRing,
}
use toadb.Dlist.Frame.{
  Same, IsRing-frame, add_dlist_tail-frame, pop_dlist_tail_node-frame, del_dlist_node-frame,
}
use toadb.Resource.{
  ResourceOnwerPool, create_resource_owner_pool, get_resource_owner_node,
  add_resource_owner_node_to_free_list, own_node, disown_node,
}

abbrev pub Disjoint : List ℕ → List ℕ → Type 0
Disjoint xs ys = (i : ℕ) → mem i xs ≡ true → mem i ys ≡ false

pub Disjoint-sym : (xs ys : List ℕ) → Disjoint xs ys → Disjoint ys xs
Disjoint-sym xs ys d i m = elim (Bool-cases (mem i xs)) [
  | inl e ↦ absurd (ne_of_mem i i ys m (d i e) refl)
  | inr e ↦ e
]

-- The nodes in use and the free ones.
pub record IsPool (pool : ResourceOnwerPool) (owned free : List ℕ) : Type 0 where
  pub owned_ring : IsRing pool.heap (some pool.header) (pool.header ∷ owned)
  pub free_ring : IsRing pool.heap (some pool.free_list) (pool.free_list ∷ free)
  pub owned_num : pool.onwer_resource_num ≡ length owned
  pub free_num : pool.free_node_num ≡ length free
  pub apart : Disjoint (pool.header ∷ owned) (pool.free_list ∷ free)

-- The buffer and the type that a node holds.
abbrev pub entry : ResourceOnwerPool → ℕ → ℕ × ℕ
entry pool i = (pool.buffer i, pool.kind i)

pub create-IsPool :
    (free_list header : ℕ) (heap : Heap) (kind buffer : ℕ → ℕ)
    → free_list ≢ header
    → IsPool (create_resource_owner_pool free_list header heap kind buffer) [] []
unfolding create_resource_owner_pool init_dlist_node
create-IsPool free_list header heap kind buffer ne = record {
  owned_ring = (refl, (ground arith, ground arith), (refl, tt));
  free_ring = (refl, (ground arith, ground arith), (refl, tt));
  owned_num = refl;
  free_num = refl;
  apart = λ i m. ground arith;
}

-- A node outside both lists is put at the end of the list in use.
pub own_node-IsPool :
    (buffer kind node : ℕ) (pool : ResourceOnwerPool) (owned free : List ℕ)
    → IsPool pool owned free
    → mem node (pool.header ∷ owned) ≡ false
    → mem node (pool.free_list ∷ free) ≡ false
    → IsPool (own_node buffer kind node pool) (owned ++ node ∷ []) free
unfolding own_node init_dlist_node
own_node-IsPool buffer kind node pool owned free p out out2 =
    let hs = pool.header ∷ owned in
    let fs = pool.free_list ∷ free in
    let h = init_dlist_node node pool.heap in
    let same : (ids : List ℕ)
        → mem node ids ≡ false
        → (i : ℕ) → mem i ids ≡ true
        → Same pool.heap h i =
      λ ids o i m. let ne = ne_of_mem i node ids m o in ground arith in
    let r = IsRing-frame pool.heap h (some pool.header) hs (same hs out) p.owned_ring in
    let f = IsRing-frame pool.heap h (some pool.free_list) fs (same fs out2) p.free_ring in
    let o = add_dlist_tail-IsRing h (some pool.header) hs node r out in
    let k = (add_dlist_tail (some pool.header) node h).2 in
    record {
      owned_ring = (refl, o.0.1, o.0.2);
      free_ring =
          IsRing-frame h k (some pool.free_list) fs
            (λ i m.
              add_dlist_tail-frame h (some pool.header) hs node i r (Disjoint-sym hs fs p.apart i m)
                (ne_of_mem i node fs m out2))
            f;
      owned_num = omega (arith, p.owned_num, length-append owned (node ∷ []));
      free_num = p.free_num;
      apart = λ i m.
          let a = mem-append i owned (node ∷ []) in
          let d = p.apart i in let n = ne_of_mem i node fs in ground arith;
    }

pub disown_node-IsPool :
    (ys : List ℕ) (node : ℕ) (zs free : List ℕ) (pool : ResourceOnwerPool)
    → IsPool pool (ys ++ node ∷ zs) free
    → IsPool (disown_node node pool) (ys ++ zs) (free ++ node ∷ [])
unfolding disown_node add_resource_owner_node_to_free_list
disown_node-IsPool ys node zs free pool p =
    let hs = pool.header ∷ ys ++ node ∷ zs in
    let hs' = pool.header ∷ ys ++ zs in
    let fs = pool.free_list ∷ free in
    let around = IsFresh-AreApart (pool.header ∷ ys) node zs p.owned_ring.2 in
    let a = λ (i : ℕ). mem-append i (pool.header ∷ ys) (node ∷ zs) in
    let b = λ (i : ℕ). mem-append i (pool.header ∷ ys) zs in
    let inside : mem node hs ≡ true = ground (arith, a node) in
    let out = p.apart node inside in
    let less : (i : ℕ) → mem i hs' ≡ true → (mem i hs ≡ true) × (i ≢ node) = λ i m.
      let e = a i in
      let e2 = b i in
      (
        ground arith,
        λ same. let n = around.not_before in let n2 = around.not_after in ground arith,
      ) in
    let h = (del_dlist_node (some pool.header) node pool.heap).1 in
    let o =
      del_dlist_node-IsRing pool.heap (some pool.header) pool.header ys node zs p.owned_ring in
    let f =
      IsRing-frame pool.heap h (some pool.free_list) fs
        (λ i m.
          del_dlist_node-frame pool.heap (some pool.header) hs node i p.owned_ring inside
            (Disjoint-sym hs fs p.apart i m))
        p.free_ring in
    let k = (add_dlist_tail (some pool.free_list) node h).2 in
    record {
      owned_ring =
          IsRing-frame h k (some pool.header) hs'
            (λ i m.
              add_dlist_tail-frame h (some pool.free_list) fs node i f (p.apart i (less i m).0)
                (less i m).1)
            o.0;
      free_ring =
          let t = add_dlist_tail-IsRing h (some pool.free_list) fs node f out in
          (refl, t.0.1, t.0.2);
      owned_num = omega (arith, p.owned_num, length-append ys (node ∷ zs), length-append ys zs);
      free_num = omega (arith, p.free_num, length-append free (node ∷ []));
      apart = λ i m.
          let l = less i m in
          let d = p.apart i l.0 in let e = mem-append i fs (node ∷ []) in ground arith;
    }

-- The node that a free list gives up.
pub pop_free-IsPool :
    (alloc : ℕ) (pool : ResourceOnwerPool) (owned free : List ℕ) (node : ℕ)
    → IsPool pool owned (free ++ node ∷ [])
    → let o = pop_dlist_tail_node (some pool.free_list) pool.heap in
      let pool' : ResourceOnwerPool = record pool {
        heap = o.2;
        free_node_num = pool.free_node_num - 1;
      } in
      IsPool pool' owned free
      × (get_resource_owner_node alloc pool ≡ some (node, pool'))
      × (mem node (pool.header ∷ owned) ≡ false)
      × (mem node (pool.free_list ∷ free) ≡ false)
unfolding get_resource_owner_node
pop_free-IsPool alloc pool owned free node p =
    let hs = pool.header ∷ owned in
    let fs = pool.free_list ∷ free in
    let fs' = fs ++ node ∷ [] in
    let o = pop_dlist_tail_node (some pool.free_list) pool.heap in
    let r = pop_dlist_tail_node-IsRing pool.heap (some pool.free_list) fs node p.free_ring in
    let around = IsFresh-AreApart fs node [] p.free_ring.2 in
    let inside : mem node fs' ≡ true = ground (arith, mem-append node fs (node ∷ [])) in
    let n = length-append free (node ∷ []) in
    (
      record {
        owned_ring =
            IsRing-frame pool.heap o.2 (some pool.header) hs
              (λ i m.
                pop_dlist_tail_node-frame pool.heap (some pool.free_list) fs' i p.free_ring
                  (p.apart i m))
              p.owned_ring;
        free_ring = (refl, r.0.1, r.0.2);
        owned_num = p.owned_num;
        free_num = omega (arith, p.free_num, n);
        apart = λ i m. let e = mem-append i fs (node ∷ []) in let d = p.apart i m in ground arith;
      },
      rw (lt→ltb 0 pool.free_node_num (omega (arith, p.free_num, n)), r.1) refl,
      Disjoint-sym hs fs' p.apart node inside,
      around.not_before,
    )
