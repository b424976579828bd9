-- ===== src/Resource/Refine.antt =====
-- The pool of resourceMgr.c as the list of the entries in use, the first pushed first.
use toadb.Base.{
  ℕ, ◌-◌, ◌<◌, ◌≡◌, refl, ◌∙◌, sym, ap, subst, true, false, List, [], ◌∷◌, ◌++◌, Option, none, some,
  mem, arith, length, length-map, init, last, init-last, ltb, map, Option-cases, List-cases, inl,
  inr,
}
use toadb.Dlist.{pop_dlist_tail_node}
use toadb.Dlist.Ring.{mem-append, mem-cons, mem-head}
use toadb.Resource.{
  ResourceOnwerPool, own_node, get_resource_owner_node, push_resource_owner, disown_node,
  release_resource_owner, pop_resource_owner,
}
use toadb.Resource.Invariant.{IsPool, Disjoint-sym, pop_free-IsPool}
use toadb.Resource.Entries.{
  entry, has_entry, remove_entry, Holds, find, find-split, find-none, disown_node-Holds,
  own_node-Holds, release_finds, pop_finds,
}

abbrev popped : ResourceOnwerPool → List (ℕ × ℕ) → ℕ × Option ℕ × ResourceOnwerPool
popped pool [] = (0, none, pool)
popped pool (e ∷ es) = (1, some e.0, pool)

abbrev rest : List (ℕ × ℕ) → List (ℕ × ℕ)
rest [] = []
rest (e ∷ es) = es

module _ (pool : ResourceOnwerPool) (news : List ℕ) (es : List (ℕ × ℕ))
    (h : Holds pool news es) where
  -- The pool that ReleaseResourceOwner leaves.
  abbrev Releases : ℕ → ℕ → ℕ → List (ℕ × ℕ) → Type 0
  Releases fuel b t l =
      (pool' : ResourceOnwerPool) × (release_resource_owner fuel b t pool
        ≡ some (has_entry b t l, pool'))
      × Holds pool' news (remove_entry b t l)

  pub release_resource_owner_refines : (fuel b t : ℕ) → length es < fuel → Releases fuel b t es
  release_resource_owner_refines fuel b t enough =
      let size = ap length (sym h.entries) ∙ length-map (entry pool) h.owned in
      let r = release_finds fuel b t pool h.owned h.free h.valid (omega (arith, size)) in
      subst (Releases fuel b t) h.entries (elim (Option-cases (find pool b t h.owned)) [
        | inl e ↦
            let o = find-none pool b t h.owned e in
            (pool, rw (r, e, o.0) refl, subst (Holds pool news) (sym (o.1 ∙ h.entries)) h)
        | inr (n, e) ↦
            let o = find-split pool b t h.owned n e in
            (
              disown_node n pool,
              rw (r, e, o.3) refl,
              subst (Holds (disown_node n pool) news) (sym o.4)
                  (disown_node-Holds o.0 n o.1 news es pool h o.2),
            )
      ])

  -- The pool that PopResourceOwner leaves.
  abbrev Pops : List (ℕ × ℕ) → Type 0
  Pops l =
      (pool' : ResourceOnwerPool) × (pop_resource_owner pool ≡ popped pool' l)
      × Holds pool' news (rest l)

  pub pop_resource_owner_refines : Pops es
  pop_resource_owner_refines = subst Pops h.entries (elim (List-cases h.owned) [
    | inl e ↦ (
      pool,
      subst (λ l. pop_resource_owner pool ≡ popped pool (map (entry pool) l)) (sym e)
          (pop_finds pool [] h.free (subst (λ l. IsPool pool l h.free) e h.valid)),
      let end = ap (map (entry pool)) e in
          subst (Holds pool news) (sym h.entries ∙ end ∙ sym (ap rest end)) h,
    )
    | inr (n, ns, e) ↦ (
      disown_node n pool,
      subst (λ l. pop_resource_owner pool ≡ popped (disown_node n pool) (map (entry pool) l))
          (sym e) (pop_finds pool (n ∷ ns) h.free (subst (λ l. IsPool pool l h.free) e h.valid)),
      subst (λ l. Holds (disown_node n pool) news (rest (map (entry pool) l))) (sym e)
          (disown_node-Holds [] n ns news es pool h e),
    )
  ])

get_resource_owner_node-new :
    (alloc : ℕ) (pool : ResourceOnwerPool)
    → pool.free_node_num ≡ 0
    → get_resource_owner_node alloc pool ≡ some (alloc, pool)
unfolding get_resource_owner_node
get_resource_owner_node-new alloc pool e =
    let none_left : ltb 0 pool.free_node_num ≡ false = ground arith in rw none_left refl

module _ (alloc b t : ℕ) (pool : ResourceOnwerPool) (news : List ℕ) (es : List (ℕ × ℕ))
    (h : Holds pool (alloc ∷ news) es) where
  -- The pool that PushResourceOwner leaves.
  abbrev Pushes : List (ℕ × ℕ) → Type 0
  Pushes l =
      (pool' : ResourceOnwerPool) × (push_resource_owner alloc b t pool ≡ some pool')
      × Holds pool' news (l ++ (b, t) ∷ [])

  push_new : h.free ≡ [] → Pushes (map (entry pool) h.owned)
  unfolding push_resource_owner
  push_new e =
      let got = get_resource_owner_node-new alloc pool (h.valid.free_num ∙ ap length e) in
      (
        own_node b t alloc pool,
        rw (push_resource_owner, got) refl,
        own_node-Holds b t alloc pool h.owned h.free news h.valid
            (h.not_owned alloc (mem-head alloc news)) (h.not_free alloc (mem-head alloc news)) h.new
            (λ i m. h.not_owned i (mem-cons i alloc news m))
            (λ i m. h.not_free i (mem-cons i alloc news m)),
      )

  push_reused :
      (free : List ℕ) (node : ℕ) → h.free ≡ free ++ node ∷ [] → Pushes (map (entry pool) h.owned)
  unfolding push_resource_owner
  push_reused free node e =
      let o =
        pop_free-IsPool alloc pool h.owned free node (subst (IsPool pool h.owned) e h.valid) in
      let pool' : ResourceOnwerPool = record pool {
        heap = (pop_dlist_tail_node (some pool.free_list) pool.heap).2;
        free_node_num = pool.free_node_num - 1;
      } in
      let inside : (i : ℕ)
          → mem i (free ++ node ∷ []) ≡ true
          → mem i (pool.free_list ∷ h.free) ≡ true =
        λ i m. mem-cons i pool.free_list h.free (subst (λ l. mem i l ≡ true) (sym e) m) in
      let out = Disjoint-sym (alloc ∷ news) (pool.free_list ∷ h.free) h.not_free in
      (
        own_node b t node pool',
        rw (push_resource_owner, o.1) refl,
        own_node-Holds b t node pool' h.owned free news o.0 o.2 o.3
            (
              let a = out node (inside node (ground (arith, mem-append node free (node ∷ [])))) in
                  ground arith,
              h.new.1,
            )
            (λ i m. h.not_owned i (mem-cons i alloc news m))
            (λ i m.
              let a =
                subst (λ l. mem i (pool.free_list ∷ l) ≡ false) e
                  (h.not_free i (mem-cons i alloc news m)) in
              ground (arith, mem-append i free (node ∷ []))),
      )

  pub push_resource_owner_refines : Pushes es
  push_resource_owner_refines = subst Pushes h.entries (elim (List-cases h.free) [
    | inl e ↦ push_new e
    | inr (n, ns, e) ↦ push_reused (init n ns) (last n ns) (e ∙ init-last n ns)
  ])
