-- ===== src/Transaction/Tests.antt =====
-- Runs of the transaction functions at concrete states, and the theorems at such states.
use toadb.Base.{none, ℕ, ◌≤◌, ◌≡◌, ◌≢◌, ◌⊎◌, ◌↔◌, refl, true, false, List, [], ◌∷◌, some, arith}
use toadb.Transaction.Xtid.{transaction_info, set_high_level_transaction, invalid_xtid}
use toadb.Transaction.Xtid.Levels.{set_high_level_raises}
use toadb.Transaction.Control.{
  FsmState, TransactionContext, IsolationLevel, Shared, State, init_transact_context,
  get_current_transaction_id, start_transaction, finish_transaction,
}
use toadb.Transaction.Control.Workers.{Op, World, run, Inv, crew, init_run-Inv}
use toadb.Transaction.Statements.{
  TransactionTag, executor_main, run_statement, Ends, open_statement-Runs,
}
use toadb.Transaction.Snapshot.{
  SnapShotInfo, create_snapshot, TupleHeader, TupleVisibility, get_active_xtids, get_snapshot,
  generate_snapshot, tuple_visibility_satisfy, compute_xmax,
}
use toadb.Transaction.Snapshot.Active.{get_active_xtids_clean, get_active_xtids_stale, scanned}
use toadb.Transaction.Snapshot.Visibility.{
  IsSnapshot, Inserted, Kept, InProgress, Ended, ShowsOld, tuple_visibility_iff, update_shows_one,
}
use toadb.Transaction.Snapshot.Isolation.{no_dirty_read, stale_dirty_read, generate_snapshot_once}

abbrev context : FsmState → ℕ → TransactionContext
context ts xid = record { ts = ts; transaction_id = xid; snapshot = false }

-- Four workers: worker 1 runs transaction 6, worker 2 runs 5, worker 3 runs 2, and worker 4 has
-- finished 3.
abbrev busy : State
busy = record {
  shared = record {
    ids = record { next_transaction_id = 7; low_level_xtid = 0; high_level_xtid = 3 };
    max_transaction_num = 4;
    contexts =
        context FsmState.begin 6
        ∷ context FsmState.begin 5
        ∷ context FsmState.start 2
        ∷ context FsmState.idle 3
        ∷ [];
  };
  session = record { worker = some 1; mine = some 0 };
}

abbrev fresh_snapshot : SnapShotInfo
fresh_snapshot = record {
  high_level = 0;
  low_level = 0;
  xid_num = 0;
  xid_arr_max = 4;
  running_xid_arr = 0 ∷ 0 ∷ 0 ∷ 0 ∷ [];
}

-- The snapshot of worker 1 from a time when nothing had finished: it holds 5 and 2.
abbrev old_snapshot : SnapShotInfo
old_snapshot = record {
  high_level = 1;
  low_level = 1;
  xid_num = 2;
  xid_arr_max = 4;
  running_xid_arr = 5 ∷ 2 ∷ 0 ∷ 0 ∷ [];
}

abbrev busy_snapshot : SnapShotInfo
busy_snapshot = record {
  high_level = 4;
  low_level = 2;
  xid_num = 2;
  xid_arr_max = 4;
  running_xid_arr = 5 ∷ 2 ∷ 0 ∷ 0 ∷ [];
}

abbrev tuple : ℕ → ℕ → TupleHeader
tuple tmin tmax = record { tmin = tmin; tmax = tmax; tinfo = 0; cid = 0 }

get_snapshot-busy : get_snapshot busy fresh_snapshot ≡ some busy_snapshot
unfolding get_snapshot
get_snapshot-busy = refl

create_snapshot-fresh : create_snapshot 4 ≡ fresh_snapshot
unfolding create_snapshot
create_snapshot-fresh = refl

busy-IsSnapshot : IsSnapshot busy_snapshot
busy-IsSnapshot = record { below_running = omega arith; below_high = omega arith }

set_high_level_raises_example :
    (level : ℕ) × (high : ℕ) × (set_high_level_transaction (3 ∷ 5 ∷ []) transaction_info 4
      ≡ some (level, record transaction_info { high_level_xtid = high }))
    × (4 ≤ high)
    × (0 ≤ high)
    × ((high ≡ 4) ⊎ (4 ≤ level))
set_high_level_raises_example =
    set_high_level_raises (3 ∷ 5 ∷ []) transaction_info 4 (omega arith) (omega arith)

abbrev history : List (ℕ × Op)
history = (0, Op.begins) ∷ (1, Op.starts) ∷ (1, Op.finishes) ∷ (0, Op.ends) ∷ (1, Op.begins) ∷ []

init_run-Inv_example :
    (shared : Shared) × (w : World) × (init_transact_context transaction_info 2 ≡ some shared)
    × (run (record { shared = shared; sessions = crew 0 2 }) history ≡ some w)
    × Inv w
init_run-Inv_example = init_run-Inv 2 history (omega arith) (omega arith) (omega arith)

get_active_xtids_clean_example :
    get_active_xtids busy (0 ∷ 0 ∷ 0 ∷ []) 3 ≡ some (4, scanned 2 (5 ∷ 2 ∷ []) (0 ∷ []))
get_active_xtids_clean_example =
    get_active_xtids_clean busy (0 ∷ 0 ∷ 0 ∷ []) (omega arith) (omega arith)

get_active_xtids_stale_example :
    get_active_xtids busy (5 ∷ 2 ∷ 0 ∷ []) 3 ≡ some (4, scanned 4 [] (5 ∷ 2 ∷ 0 ∷ []))
get_active_xtids_stale_example = get_active_xtids_stale busy 5 (2 ∷ 0 ∷ []) 3 (omega arith)

tuple_visibility_iff_example :
    (tuple_visibility_satisfy 6 (tuple 3 5) (some busy_snapshot) ≡ TupleVisibility.visible)
    ↔ (Inserted 6 busy_snapshot (tuple 3 5) × Kept 6 busy_snapshot (tuple 3 5))
tuple_visibility_iff_example = tuple_visibility_iff 6 (tuple 3 5) busy_snapshot busy-IsSnapshot

-- Transaction 5 updates a tuple that transaction 6 sees.
update_shows_one_example :
    let (new, old) = compute_xmax 5 (tuple 3 invalid_xtid) in
    ((◌≢◌ {A = ℕ} 6 5) × InProgress busy_snapshot 5 × ShowsOld 6 old new busy_snapshot)
    ⊎ (((◌≡◌ {A = ℕ} 6 5) ⊎ Ended busy_snapshot 5) × ShowsOld 6 new old busy_snapshot)
unfolding tuple_visibility_satisfy
update_shows_one_example =
    update_shows_one 5 6 (tuple 3 invalid_xtid) busy_snapshot busy-IsSnapshot (omega arith) refl

no_dirty_read_example :
    (snapshot : SnapShotInfo) × (get_snapshot busy fresh_snapshot ≡ some snapshot)
    × IsSnapshot snapshot
    × (tuple_visibility_satisfy
          (get_current_transaction_id busy)
          (tuple 2 invalid_xtid)
          (some snapshot)
        ≡ TupleVisibility.invisible)
unfolding get_current_transaction_id
no_dirty_read_example =
    no_dirty_read busy fresh_snapshot 2 (context FsmState.start 2) (tuple 2 invalid_xtid)
      (record { clean = omega arith; whole = refl; room = omega arith })
      (record { inside = omega arith; at_i = refl; active = refl; other = omega arith }) refl

stale_dirty_read_example :
    (snapshot : SnapShotInfo) × (get_snapshot busy old_snapshot ≡ some snapshot)
    × (tuple_visibility_satisfy
          (get_current_transaction_id busy)
          (tuple 2 invalid_xtid)
          (some snapshot)
        ≡ TupleVisibility.visible)
unfolding get_current_transaction_id
stale_dirty_read_example =
    stale_dirty_read busy old_snapshot 5 (2 ∷ 0 ∷ 0 ∷ []) 2 (context FsmState.start 2)
      (tuple 2 invalid_xtid) refl (omega arith)
      (record { inside = omega arith; at_i = refl; active = refl; other = omega arith })
      (omega arith) refl refl

-- Worker 1 with its snapshot, and then after worker 2 has finished.
abbrev snapped : State
snapped = record busy {
  shared = record (busy.shared) {
    contexts =
        record { ts = FsmState.begin; transaction_id = 6; snapshot = true }
        ∷ context FsmState.begin 5
        ∷ context FsmState.start 2
        ∷ context FsmState.idle 3
        ∷ [];
  };
}

abbrev later : State
later = record busy {
  shared = record (busy.shared) {
    ids = record { next_transaction_id = 8; low_level_xtid = 0; high_level_xtid = 5 };
    contexts =
        record { ts = FsmState.begin; transaction_id = 6; snapshot = true }
        ∷ context FsmState.idle 5
        ∷ context FsmState.start 2
        ∷ context FsmState.start 7
        ∷ [];
  };
}

snapped_made :
    generate_snapshot IsolationLevel.read_repeatable busy fresh_snapshot
    ≡ some (snapped, busy_snapshot)
unfolding generate_snapshot
snapped_made = refl

generate_snapshot_once_example :
    generate_snapshot IsolationLevel.read_repeatable later busy_snapshot
    ≡ some (later, busy_snapshot)
unfolding generate_snapshot
generate_snapshot_once_example =
    generate_snapshot_once busy snapped later fresh_snapshot busy_snapshot 0 refl (omega arith) refl
      refl refl

open_statement-Runs_example :
    (s' : State) × (run_statement IsolationLevel.read_repeatable
        (4 ∷ [])
        (some TransactionTag.tf_commit)
        busy
        fresh_snapshot
      ≡ some (s', busy_snapshot))
    × Ends busy 0 (context FsmState.begin 6) true s'
open_statement-Runs_example =
    open_statement-Runs busy 0 (context FsmState.begin 6) refl refl refl
      IsolationLevel.read_repeatable (4 ∷ []) (some TransactionTag.tf_commit) snapped fresh_snapshot
      busy_snapshot (omega arith) (omega arith) snapped_made

-- Another statement leaves the mark of the snapshot.
other_statement :
    run_statement IsolationLevel.read_commited [] none busy fresh_snapshot
    ≡ some (snapped, busy_snapshot)
unfolding run_statement executor_main start_transaction generate_snapshot finish_transaction
other_statement = refl
