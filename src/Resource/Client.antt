-- ===== src/Resource/Client.antt =====
-- Any calls of resourceMgr.c after CreateResourceOwnerPool, as calls on a list of entries.
use toadb.Base.{
  ℕ, ◌+◌, ◌<◌, ◌≡◌, refl, List, [], ◌∷◌, ◌++◌, Option, none, some, IsFresh, arith, length,
  length-append, ◌>>=◌,
}
use toadb.Dlist.{Heap}
use toadb.Dlist.Ring.{ne_of_mem}
use toadb.Resource.{
  ResourceOnwerPool, create_resource_owner_pool, push_resource_owner, release_resource_owner,
  pop_resource_owner,
}
use toadb.Resource.Invariant.{create-IsPool}
use toadb.Resource.Entries.{Holds, has_entry, remove_entry}
use toadb.Resource.Refine.{
  release_resource_owner_refines, pop_resource_owner_refines, push_resource_owner_refines,
}

-- A call, with the address that AllocMem returns in it if it is asked.
pub data ResourceOp : Type 0 where
  push : ℕ → ℕ → ℕ → ResourceOp
  release : ℕ → ℕ → ResourceOp
  pop : ResourceOp

-- What the calls return, and the buffer that PopResourceOwner writes.
abbrev pub Reply : Type 0
Reply = ℕ × Option ℕ

unfoldable pub step : ℕ → ResourceOp → ResourceOnwerPool → Option (Reply × ResourceOnwerPool)
step fuel (ResourceOp.push alloc b t) pool = do
  pool' ← push_resource_owner alloc b t pool
  some ((0, none), pool')
step fuel (ResourceOp.release b t) pool = do
  o ← release_resource_owner fuel b t pool
  some ((o.0, none), o.1)
step fuel ResourceOp.pop pool = let o = pop_resource_owner pool in some ((o.0, o.1), o.2)

unfoldable pub run :
    ℕ → List ResourceOp → ResourceOnwerPool → Option (List Reply × ResourceOnwerPool)
run fuel [] pool = some ([], pool)
run fuel (op ∷ ops) pool = do
  o ← step fuel op pool
  rest ← run fuel ops o.1
  some (o.0 ∷ rest.0, rest.1)

-- The same calls on the entries: a push at the end, a release of the first equal entry, a pop of the
-- first entry.
unfoldable pub abstract_step : ResourceOp → List (ℕ × ℕ) → Reply × List (ℕ × ℕ)
abstract_step (ResourceOp.push alloc b t) es = ((0, none), es ++ (b, t) ∷ [])
abstract_step (ResourceOp.release b t) es = ((has_entry b t es, none), remove_entry b t es)
abstract_step ResourceOp.pop [] = ((0, none), [])
abstract_step ResourceOp.pop (e ∷ es) = ((1, some e.0), es)

unfoldable pub replay : List ResourceOp → List (ℕ × ℕ) → List Reply × List (ℕ × ℕ)
replay [] es = ([], es)
replay (op ∷ ops) es =
    let o = abstract_step op es in let rest = replay ops o.1 in (o.0 ∷ rest.0, rest.1)

unfoldable pub allocated : List ResourceOp → List ℕ
allocated [] = []
allocated (ResourceOp.push alloc b t ∷ ops) = alloc ∷ allocated ops
allocated (ResourceOp.release b t ∷ ops) = allocated ops
allocated (ResourceOp.pop ∷ ops) = allocated ops

length-remove_entry : (b t : ℕ) (es : List (ℕ × ℕ)) → length (remove_entry b t es) < length es + 1
length-remove_entry b t [] = omega arith
length-remove_entry b t (e ∷ es) = ground (arith, length-remove_entry b t es)

run_refines :
    (fuel : ℕ) (ops : List ResourceOp) (pool : ResourceOnwerPool) (es : List (ℕ × ℕ))
    → Holds pool (allocated ops) es
    → length es + length ops < fuel
    → (pool' : ResourceOnwerPool) × (run fuel ops pool ≡ some ((replay ops es).0, pool'))
      × Holds pool' [] (replay ops es).1
unfolding run replay allocated step abstract_step
run_refines fuel [] pool es h enough = (pool, refl, h)
run_refines fuel (ResourceOp.push alloc b t ∷ ops) pool es h enough =
    let o = push_resource_owner_refines alloc b t pool (allocated ops) es h in
    let ih =
      run_refines fuel ops o.0 (es ++ (b, t) ∷ []) o.2
        (omega (arith, length-append es ((b, t) ∷ []))) in
    (ih.0, rw (run, step, o.1, ih.1) refl, ih.2)
run_refines fuel (ResourceOp.release b t ∷ ops) pool es h enough =
    let o = release_resource_owner_refines pool (allocated ops) es h fuel b t (omega arith) in
    let ih =
      run_refines fuel ops o.0 (remove_entry b t es) o.2
        (omega (arith, length-remove_entry b t es)) in
    (ih.0, rw (run, step, o.1, ih.1) refl, ih.2)
run_refines fuel (ResourceOp.pop ∷ ops) pool [] h enough =
    let o = pop_resource_owner_refines pool (allocated ops) [] h in
    let ih = run_refines fuel ops o.0 [] o.2 (omega arith) in
    (ih.0, rw (run, step, o.1, ih.1) refl, ih.2)
run_refines fuel (ResourceOp.pop ∷ ops) pool (e ∷ es) h enough =
    let o = pop_resource_owner_refines pool (allocated ops) (e ∷ es) h in
    let ih = run_refines fuel ops o.0 es o.2 (omega arith) in
    (ih.0, rw (run, step, o.1, ih.1) refl, ih.2)

-- If AllocMem returns different addresses, none of them a header of the pool, and the loop of
-- ReleaseResourceOwner has more rounds than there are calls, then any calls of
-- PushResourceOwner, ReleaseResourceOwner and PopResourceOwner after CreateResourceOwnerPool
-- return, with what the same calls on a list of entries return: a push at the end, a release of
-- the first equal entry, a pop of the first entry; and the pool then holds that list.
pub create-run_refines :
    (fuel free_list header : ℕ) (heap : Heap) (kind buffer : ℕ → ℕ) (ops : List ResourceOp)
    → IsFresh (header ∷ free_list ∷ allocated ops)
    → length ops < fuel
    → (pool' : ResourceOnwerPool) × (run fuel ops
          (create_resource_owner_pool free_list header heap kind buffer)
        ≡ some ((replay ops []).0, pool'))
      × Holds pool' [] (replay ops []).1
unfolding create_resource_owner_pool
create-run_refines fuel free_list header heap kind buffer ops fresh enough =
    let pool = create_resource_owner_pool free_list header heap kind buffer in
    run_refines fuel ops pool []
      (record {
        owned = [];
        free = [];
        valid = create-IsPool free_list header heap kind buffer (ground arith);
        entries = refl;
        new = fresh.1.1;
        not_owned =
            λ i m. let n = ne_of_mem i header (allocated ops) m (ground arith) in ground arith;
        not_free =
            λ i m. let n = ne_of_mem i free_list (allocated ops) m (ground arith) in ground arith;
      })
      (omega arith)
