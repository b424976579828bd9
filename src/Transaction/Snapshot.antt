-- ===== src/Transaction/Snapshot.antt =====
-- sqlcore/transaction/snapshot.c, with `GetActiveXtids` and `GenerateSnapshot` of
-- transactionControl.c: which transactions run, and which tuples a statement sees.
pub mod Active
pub mod Visibility
pub mod Isolation
use toadb.Base.{
  ℕ, zero, suc, ◌+◌, ◌%◌, ◌^◌, ◌≡◌, Bool, true, false, List, [], ◌∷◌, Option, none, some, ltb, leb,
  ◌==◌, if◌then◌else◌, not, ◌||◌, ◌&&◌, ◌>>=◌, get_elem?, set, take, replicate,
}
use toadb.Transaction.Xtid.{
  TransactionIdInfo, TransactionState, xtid_mod, invalid_xtid, clean_xtid, xtid_is_invalid,
  get_transaction_state,
}
use toadb.Transaction.Control.{
  FsmState, is_idle, TransactionContext, IsolationLevel, State, my_context, put_context,
  get_current_transaction_id,
}

pub record SnapShotInfo : Type 0 where
  pub high_level : ℕ
  pub low_level : ℕ
  pub xid_num : ℕ
  pub xid_arr_max : ℕ
  pub running_xid_arr : List ℕ

-- The memory behind the structure comes zeroed from the pool.
unfoldable pub create_snapshot : ℕ → SnapShotInfo
create_snapshot max_client = record {
  high_level = 0;
  low_level = 0;
  xid_num = 0;
  xid_arr_max = max_client;
  running_xid_arr = replicate max_client 0;
}

-- What the loop of `GetActiveXtids` carries.
pub record Scan : Type 0 where
  pub count : ℕ
  pub min : ℕ
  pub xtids : List ℕ

-- `NULL != myTransaction` and it has this id.
abbrev pub is_mine : Option ℕ → ℕ → Bool
is_mine none xid = false
is_mine (some id) xid = xid == id

abbrev pub skips : Option ℕ → TransactionContext → Bool
skips my c = is_idle c.ts || is_mine my c.transaction_id

abbrev pub record_xtid : ℕ → Scan → Scan
record_xtid xid s = record {
  count = s.count + 1;
  min = if ltb xid s.min then xid else s.min;
  xtids = set s.xtids s.count xid;
}

-- The `for` loop. `none` is an access outside the array `xtids`; note that the slot is compared with
-- `max` before it is written.
unfoldable pub active_loop : Option ℕ → ℕ → ℕ → List TransactionContext → Scan → Option Scan
active_loop my max_num max [] s = some s
active_loop my max_num max (c ∷ cs) s =
    let skip = active_loop my max_num max cs s in
    let s' = record_xtid c.transaction_id s in
    let next = active_loop my max_num max cs s' in
    if skips my c then skip else (do
      slot ← get_elem? s.xtids s.count
      if ltb max slot then skip else if leb max_num s'.count then some s' else next)

abbrev pub my_id : State → Option ℕ
my_id s = do c ← my_context s; some c.transaction_id

abbrev pub start_min : Option ℕ → ℕ → ℕ
start_min none max = max
start_min (some id) max = if ltb id max then id else max

-- `*maxXtid` and the scan, for an array that is not NULL.
unfoldable pub get_active_xtids : State → List ℕ → ℕ → Option (ℕ × Scan)
unfolding active_loop
get_active_xtids s xtids max_num = do
  let max = (s.ids.high_level_xtid + 1) % xtid_mod
  scan ←
      active_loop (my_id s) max_num max (take s.max_transaction_num s.contexts)
        (record { count = 0; min = start_min (my_id s) max; xtids = xtids })
  some (max, scan)

unfoldable pub get_snapshot : State → SnapShotInfo → Option SnapShotInfo
unfolding get_active_xtids
get_snapshot s snapshot = do
  (max, scan) ← get_active_xtids s snapshot.running_xid_arr snapshot.xid_arr_max
  some (record snapshot {
    high_level = max;
    low_level = scan.min;
    xid_num = scan.count;
    running_xid_arr = scan.xtids;
  })

abbrev pub is_new_snapshot : IsolationLevel → TransactionContext → Bool
is_new_snapshot IsolationLevel.read_commited c = true
is_new_snapshot IsolationLevel.read_repeatable c = not c.snapshot

-- `GenerateSnapshot` on the snapshot of the worker's server process.
unfoldable pub generate_snapshot :
    IsolationLevel → State → SnapShotInfo → Option (State × SnapShotInfo)
unfolding get_snapshot
generate_snapshot level s snapshot = elim s.mine [
  | none ↦ some (s, snapshot)
  | some i ↦ do
    c ← get_elem? s.contexts i
    if is_new_snapshot level c
        then (do
          snapshot' ← get_snapshot s snapshot
          some (put_context s i (record c { snapshot = true }), snapshot'))
        else some (s, snapshot)
]

abbrev pub found_in : ℕ → List ℕ → Bool
found_in xtid [] = false
found_in xtid (x ∷ xs) = xtid == x || found_in xtid xs

unfoldable pub xtid_is_in_snapshot : ℕ → SnapShotInfo → Bool
xtid_is_in_snapshot xtid snapshot = found_in xtid (take snapshot.xid_num snapshot.running_xid_arr)

pub data TupleVisibility : Type 0 where
  invisible visible in_snapshot out_snapshot unknown : TupleVisibility

unfoldable pub tuple_visibility_snapshot : ℕ → SnapShotInfo → TupleVisibility
unfolding xtid_is_in_snapshot
tuple_visibility_snapshot xtid s =
    if ltb xtid s.low_level
    then TupleVisibility.out_snapshot
    else if ltb xtid s.high_level
    then (if xtid_is_in_snapshot xtid s
        then TupleVisibility.in_snapshot
        else TupleVisibility.out_snapshot)
    else TupleVisibility.in_snapshot

pub record TupleHeader : Type 0 where
  pub tmin : ℕ
  pub tmax : ℕ
  pub tinfo : ℕ
  pub cid : ℕ

-- `ComputeXminTupleHeader` and `ComputeXmaxTupleHeader`, for a transaction with id `curr`.
unfoldable pub compute_xmin : ℕ → TupleHeader
compute_xmin curr = record { tmin = curr; tmax = invalid_xtid; tinfo = clean_xtid; cid = 0 }

-- The new header and the old one.
unfoldable pub compute_xmax : ℕ → TupleHeader → TupleHeader × TupleHeader
compute_xmax curr old = (
  record { tmin = curr; tmax = invalid_xtid; tinfo = clean_xtid; cid = 0 },
  record old { cid = 0; tmax = curr },
)

abbrev pub is_in : TupleVisibility → Bool
is_in TupleVisibility.in_snapshot = true
is_in _ = false

abbrev pub is_commited : TransactionState → Bool
is_commited TransactionState.commited = true
is_commited _ = false

-- The inserting transaction is neither the caller nor known to be commited.
abbrev pub insert_hidden : ℕ → TupleHeader → SnapShotInfo → Bool
insert_hidden curr t s =
    not (t.tmin == curr)
    && (is_in (tuple_visibility_snapshot t.tmin s)
        || not (is_commited (get_transaction_state t.tmin)))

-- The deleting transaction is neither the caller nor known to be commited; the state that is asked
-- for is that of `tmin`.
abbrev pub delete_pending : ℕ → TupleHeader → SnapShotInfo → Bool
delete_pending curr t s =
    not (t.tmax == curr)
    && (is_in (tuple_visibility_snapshot t.tmax s)
        || not (is_commited (get_transaction_state t.tmin)))

-- `curr` is `GetCurrentTransactionID()`; no snapshot is NULL.
unfoldable pub tuple_visibility_satisfy : ℕ → TupleHeader → Option SnapShotInfo → TupleVisibility
unfolding tuple_visibility_snapshot get_transaction_state
tuple_visibility_satisfy curr t none = TupleVisibility.visible
tuple_visibility_satisfy curr t (some s) =
    if xtid_is_invalid t.tmin
    then TupleVisibility.invisible
    else if insert_hidden curr t s
    then TupleVisibility.invisible
    else if xtid_is_invalid t.tmax
    then TupleVisibility.visible
    else if delete_pending curr t s
    then TupleVisibility.visible
    else TupleVisibility.invisible

pub data TupleUpdateResult : Type 0 where
  ok invisible beging_modify updated deleted self_modified unknown : TupleUpdateResult

unfoldable pub tuple_update_satisfy : ℕ → TupleHeader → TupleUpdateResult
unfolding get_transaction_state
tuple_update_satisfy curr t =
    if xtid_is_invalid t.tmin
    then TupleUpdateResult.invisible
    else if not (is_commited (get_transaction_state t.tmin))
    then (if curr == t.tmin && (xtid_is_invalid t.tmax || not (curr == t.tmax))
        then TupleUpdateResult.ok
        else TupleUpdateResult.invisible)
    else if xtid_is_invalid t.tmax
    then TupleUpdateResult.ok
    else TupleUpdateResult.invisible
