-- ===== src/Resource/Entries.antt =====
-- The entries that the pool of resourceMgr.c has in use, and the nodes that its operations find.
use toadb.Base.{
  ℕ, zero, suc, ◌<◌, ◌≡◌, refl, ap, subst, Bool, true, false, ◌&&◌, List, [], ◌∷◌, ◌++◌, Option,
  none, some, ◌==◌, mem, IsFresh, arith, if◌then◌else◌, length, map, Bool-cases, inl, inr,
}
use toadb.Dlist.Ring.{Chain, mem-append, ne_of_mem}
use toadb.Resource.{
  ResourceOnwerPool, own_node, add_resource_owner_node_to_free_list, disown_node, release_loop,
  release_resource_owner, pop_resource_owner,
}
use toadb.Resource.Invariant.{IsPool, Disjoint, own_node-IsPool, disown_node-IsPool}

-- What a node holds: the buffer and the type.
abbrev pub entry : ResourceOnwerPool → ℕ → ℕ × ℕ
entry pool i = (pool.buffer i, pool.kind i)

abbrev pub is_entry : ℕ → ℕ → ℕ × ℕ → Bool
is_entry b t e = (e.0 == b) && (e.1 == t)

abbrev pub has_entry : ℕ → ℕ → List (ℕ × ℕ) → ℕ
has_entry b t [] = 0
has_entry b t (e ∷ es) = if is_entry b t e then 1 else has_entry b t es

abbrev pub remove_entry : ℕ → ℕ → List (ℕ × ℕ) → List (ℕ × ℕ)
remove_entry b t [] = []
remove_entry b t (e ∷ es) = if is_entry b t e then es else e ∷ remove_entry b t es

-- A pool with these entries in use, to which AllocMem has not yet given the addresses `news`.
pub record Holds (pool : ResourceOnwerPool) (news : List ℕ) (es : List (ℕ × ℕ)) : Type 0 where
  pub owned : List ℕ
  pub free : List ℕ
  pub valid : IsPool pool owned free
  pub entries : map (entry pool) owned ≡ es
  pub new : IsFresh news
  pub not_owned : Disjoint news (pool.header ∷ owned)
  pub not_free : Disjoint news (pool.free_list ∷ free)

abbrev pub find : ResourceOnwerPool → ℕ → ℕ → List ℕ → Option ℕ
find pool b t [] = none
find pool b t (i ∷ is) = if is_entry b t (entry pool i) then some i else find pool b t is

-- The first node that matches, with the nodes around it.
pub find-split :
    (pool : ResourceOnwerPool) (b t : ℕ) (is : List ℕ) (n : ℕ)
    → find pool b t is ≡ some n
    → (ys : List ℕ) × (zs : List ℕ) × (is ≡ ys ++ n ∷ zs)
      × (has_entry b t (map (entry pool) is) ≡ 1)
      × (remove_entry b t (map (entry pool) is) ≡ map (entry pool) (ys ++ zs))
find-split pool b t [] n e = absurd (cc)
find-split pool b t (i ∷ is) n e = elim (Bool-cases (is_entry b t (entry pool i))) [
  | inl hit ↦ ([], is, ground arith, rw hit refl, rw hit refl)
  | inr miss ↦
      let o = find-split pool b t is n (ground arith) in
      (i ∷ o.0, o.1, ap (◌∷◌ i) o.2, rw miss o.3, rw miss (ap (◌∷◌ (entry pool i)) o.4))
]

pub find-none :
    (pool : ResourceOnwerPool) (b t : ℕ) (is : List ℕ)
    → find pool b t is ≡ none
    → (has_entry b t (map (entry pool) is) ≡ 0)
      × (remove_entry b t (map (entry pool) is) ≡ map (entry pool) is)
find-none pool b t [] e = (refl, refl)
find-none pool b t (i ∷ is) e =
    let ih = find-none pool b t is (ground arith) in
    let miss : is_entry b t (entry pool i) ≡ false = ground arith in
    (rw miss ih.0, rw miss (ap (◌∷◌ (entry pool i)) ih.1))

abbrev pub found : ResourceOnwerPool → Option ℕ → ℕ × ResourceOnwerPool
found pool none = (0, pool)
found pool (some n) = (1, disown_node n pool)

-- The loop of ReleaseResourceOwner from the node after `a`.
release_loop_finds :
    (fuel b t : ℕ) (pool : ResourceOnwerPool) (a : ℕ) (is : List ℕ)
    → Chain pool.heap a is pool.header
    → mem pool.header is ≡ false
    → length is < fuel
    → release_loop fuel b t (pool.heap.next a) pool ≡ some (found pool (find pool b t is))
unfolding release_loop
release_loop_finds zero b t pool a is c out h = elim h [ ]
release_loop_finds (suc fuel) b t pool a [] c out h = rw (c.0, release_loop) (ground arith)
release_loop_finds (suc fuel) b t pool a (i ∷ is) c out h =
    let ih = release_loop_finds fuel b t pool i is c.2 (ground arith) (omega arith) in
    let ne : (i == pool.header) ≡ false = ground arith in
    elim (Bool-cases (is_entry b t (entry pool i))) [
      | inl hit ↦ rw (c.0, release_loop, ne, hit) refl
      | inr miss ↦ rw (c.0, release_loop, ne, miss) ih
    ]

pub disown_node-Holds :
    (ys : List ℕ) (n : ℕ) (zs news : List ℕ) (es : List (ℕ × ℕ)) (pool : ResourceOnwerPool)
    (h : Holds pool news es)
    → h.owned ≡ ys ++ n ∷ zs
    → Holds (disown_node n pool) news (map (entry pool) (ys ++ zs))
unfolding disown_node add_resource_owner_node_to_free_list
disown_node-Holds ys n zs news es pool h e =
    let a = λ (i : ℕ). mem-append i ys (n ∷ zs) in
    let b = λ (i : ℕ). mem-append i ys zs in
    record {
      owned = ys ++ zs;
      free = h.free ++ n ∷ [];
      valid = disown_node-IsPool ys n zs h.free pool (subst (λ l. IsPool pool l h.free) e h.valid);
      entries = refl;
      new = h.new;
      not_owned = λ i m.
          let o = subst (λ l. mem i (pool.header ∷ l) ≡ false) e (h.not_owned i m) in
          let x = a i in let y = b i in ground arith;
      not_free = λ i m.
          let o = subst (λ l. mem i (pool.header ∷ l) ≡ false) e (h.not_owned i m) in
          let x = a i in
          let y = mem-append i h.free (n ∷ []) in let z = h.not_free i m in ground arith;
    }

own_node-entries :
    (buffer kind node : ℕ) (pool : ResourceOnwerPool) (is : List ℕ)
    → mem node is ≡ false
    → map (entry (own_node buffer kind node pool)) (is ++ node ∷ [])
      ≡ map (entry pool) is ++ (buffer, kind) ∷ []
unfolding own_node
own_node-entries buffer kind node pool [] out = ground arith
own_node-entries buffer kind node pool (i ∷ is) out =
    let ih = own_node-entries buffer kind node pool is (ground arith) in ground arith

pub own_node-Holds :
    (buffer kind node : ℕ) (pool : ResourceOnwerPool) (owned free news : List ℕ)
    → IsPool pool owned free
    → mem node (pool.header ∷ owned) ≡ false
    → mem node (pool.free_list ∷ free) ≡ false
    → IsFresh (node ∷ news)
    → Disjoint news (pool.header ∷ owned)
    → Disjoint news (pool.free_list ∷ free)
    → Holds (own_node buffer kind node pool) news (map (entry pool) owned ++ (buffer, kind) ∷ [])
unfolding own_node
own_node-Holds buffer kind node pool owned free news p out out2 new not_o not_f = record {
  owned = owned ++ node ∷ [];
  free = free;
  valid = own_node-IsPool buffer kind node pool owned free p out out2;
  entries = own_node-entries buffer kind node pool owned (ground arith);
  new = new.1;
  not_owned = λ i m.
      let o = not_o i m in
      let x = mem-append i owned (node ∷ []) in
      let y = new.0 in let z = ne_of_mem i node news m y in ground arith;
  not_free = not_f;
}

pub find-empty :
    (pool : ResourceOnwerPool) (b t : ℕ) (is : List ℕ) → length is ≡ 0 → find pool b t is ≡ none
find-empty pool b t [] e = refl
find-empty pool b t (i ∷ is) e = absurd (omega arith)

pub release_finds :
    (fuel b t : ℕ) (pool : ResourceOnwerPool) (owned free : List ℕ)
    → IsPool pool owned free
    → length owned < fuel
    → release_resource_owner fuel b t pool ≡ some (found pool (find pool b t owned))
unfolding release_resource_owner
release_finds fuel b t pool owned free p enough = elim (Bool-cases (pool.onwer_resource_num == 0)) [
  | inl e ↦ rw (e, find-empty pool b t owned (ground (arith, p.owned_num))) refl
  | inr e ↦
      rw e
        (release_loop_finds fuel b t pool pool.header owned p.owned_ring.1 p.owned_ring.2.0 enough)
]

pub pop_finds :
    (pool : ResourceOnwerPool) (owned free : List ℕ)
    → IsPool pool owned free
    → pop_resource_owner pool
      ≡ elim owned [ [] ↦ (0, none, pool) | n ∷ _ ↦ (1, some (pool.buffer n), disown_node n pool) ]
unfolding pop_resource_owner
pop_finds pool [] free p =
    let none_left : (pool.onwer_resource_num == 0) ≡ true = ground (arith, p.owned_num) in
    rw none_left refl
pop_finds pool (n ∷ ns) free p =
    let some_left : (pool.onwer_resource_num == 0) ≡ false = ground (arith, p.owned_num) in
    let ne : (n == pool.header) ≡ false = let o = p.owned_ring.2.0 in ground arith in
    rw (some_left, p.owned_ring.1.0, ne) refl
