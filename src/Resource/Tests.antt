-- ===== src/Resource/Tests.antt =====
-- Runs of resourceMgr.c.
use toadb.Base.{arith, ℕ, ◌≡◌, refl, List, [], ◌∷◌, none, some}
use toadb.Dlist.{Heap}
use toadb.Resource.{ResourceOnwerPool, create_resource_owner_pool}
use toadb.Resource.Entries.{Holds}
use toadb.Resource.Client.{ResourceOp, abstract_step, run, replay, allocated, create-run_refines}

abbrev heap : Heap
heap = record { prev = λ i. 0; next = λ i. 0; value = λ i. 0 }

abbrev no_field : ℕ → ℕ
no_field i = 0

-- Two buffers in use, one of them twice; the second push after a release uses the released node.
abbrev calls : List ResourceOp
calls =
    ResourceOp.push 10 501 1
    ∷ ResourceOp.push 11 502 1
    ∷ ResourceOp.push 12 501 2
    ∷ ResourceOp.release 502 1
    ∷ ResourceOp.release 502 1
    ∷ ResourceOp.push 13 503 1
    ∷ ResourceOp.pop
    ∷ ResourceOp.pop
    ∷ ResourceOp.pop
    ∷ ResourceOp.pop
    ∷ []

create-run_refines_example :
    (pool' : ResourceOnwerPool) × (run 11 calls
        (create_resource_owner_pool 1 2 heap no_field no_field)
      ≡ some ((replay calls []).0, pool'))
    × Holds pool' [] (replay calls []).1
unfolding allocated
create-run_refines_example =
    create-run_refines 11 1 2 heap no_field no_field calls
      (refl, (refl, (refl, (refl, (refl, (refl, tt)))))) (omega arith)

replies :
    (replay calls []).0
    ≡ (0, none)
      ∷ (0, none)
      ∷ (0, none)
      ∷ (1, none)
      ∷ (0, none)
      ∷ (0, none)
      ∷ (1, some 501)
      ∷ (1, some 501)
      ∷ (1, some 503)
      ∷ (0, none)
      ∷ []
unfolding replay abstract_step
replies = refl
