-- ===== src/Transaction/Snapshot/Isolation.antt =====
-- A snapshot that is taken while other transactions run hides what they write.
use toadb.Base.{
  ℕ, zero, suc, ◌≤◌, ◌<◌, ◌≡◌, ◌≢◌, inl, inr, refl, sym, ◌∙◌, true, false, List, [], ◌∷◌, ◌++◌,
  Option, some, none, ltb, if◌then◌else◌, take, drop, length, arith, Bool-cases, get_elem?,
  get_elem?-total, get_elem?-set_self, Option-cases,
}
use toadb.Transaction.Xtid.{invalid_xtid}
use toadb.Transaction.Control.{
  TransactionContext, State, my_context, get_current_transaction_id, IsolationLevel, is_idle,
}
use toadb.Transaction.Snapshot.{
  SnapShotInfo, my_id, is_mine, start_min, skips, get_snapshot, generate_snapshot, TupleHeader,
  TupleVisibility, tuple_visibility_satisfy,
}
use toadb.Transaction.Snapshot.Active.{
  IsClean, top_level, running_besides, others, least, get_active_xtids_clean,
  get_active_xtids_stale, take-append,
}
use toadb.Transaction.Snapshot.Visibility.{
  IsSnapshot, InProgress, Among, AllAbove, invisible_of, excluded,
}

least-le : (m : ℕ) (xs : List ℕ) → least m xs ≤ m
least-le m [] = omega arith
least-le m (x ∷ xs) = ground (arith, least-le (if ltb x m then x else m) xs)

least-le_all : (m : ℕ) (xs : List ℕ) → AllAbove (least m xs) xs
least-le_all m [] = tt
least-le_all m (x ∷ xs) = (
  ground (arith, least-le (if ltb x m then x else m) xs),
  least-le_all (if ltb x m then x else m) xs,
)

start_min-le : (my : Option ℕ) (m : ℕ) → start_min my m ≤ m
start_min-le none m = omega arith
start_min-le (some id) m = ground arith

-- What `GetSnapshot` puts in a snapshot whose array has room and no stale id.
abbrev pub taken : State → SnapShotInfo → SnapShotInfo
taken s old = record old {
  high_level = top_level s;
  low_level = least (start_min (my_id s) (top_level s)) (running_besides s);
  xid_num = length (running_besides s);
  running_xid_arr = running_besides s ++ drop (length (running_besides s)) old.running_xid_arr;
}

-- The snapshot's array can take the ids of all workers, and holds none above the top level.
pub record IsReady (s : State) (old : SnapShotInfo) : Type 0 where
  pub clean : IsClean (top_level s) old.running_xid_arr
  pub whole : length old.running_xid_arr ≡ old.xid_arr_max
  pub room : length (running_besides s) ≤ length old.running_xid_arr

get_snapshot-taken :
    (s : State) (old : SnapShotInfo) → IsReady s old → get_snapshot s old ≡ some (taken s old)
unfolding get_snapshot
get_snapshot-taken s old r =
    rw (← r.whole, get_active_xtids_clean s old.running_xid_arr r.clean r.room)

taken-IsSnapshot : (s : State) (old : SnapShotInfo) → IsSnapshot (taken s old)
taken-IsSnapshot s old = record {
  below_running =
      rw (take-append (running_besides s) (drop (length (running_besides s)) old.running_xid_arr))
        (least-le_all _ _);
  below_high = ground (
    arith,
    least-le (start_min (my_id s) (top_level s)) (running_besides s),
    start_min-le (my_id s) (top_level s),
  );
}

others-Among :
    (my : Option ℕ) (n i : ℕ) (cs : List TransactionContext) (c : TransactionContext)
    → i < n
    → get_elem? cs i ≡ some c
    → skips my c ≡ false
    → Among c.transaction_id (others my (take n cs))
others-Among my n i [] c h e k = cc
others-Among my zero i (d ∷ cs) c h e k = absurd (omega arith)
others-Among my (suc n) zero (d ∷ cs) c h e k = ground arith
others-Among my (suc n) (suc i) (d ∷ cs) c h e k =
    let ih = others-Among my n i cs c (omega arith) e k in ground (arith, ih)

is_mine-current :
    (s : State) (x : ℕ) → x ≢ get_current_transaction_id s → is_mine (my_id s) x ≡ false
unfolding get_current_transaction_id
is_mine-current s x h = elim (Option-cases (my_context s)) [
  | inl e ↦ rw e
  | inr (c, e) ↦ ground (arith, e)
]

-- The transaction of worker `i + 1` runs, and is not the caller's.
pub record RunsBesides (s : State) (i : ℕ) (c : TransactionContext) : Type 0 where
  pub inside : i < s.max_transaction_num
  pub at_i : get_elem? s.contexts i ≡ some c
  pub active : is_idle c.ts ≡ false
  pub other : c.transaction_id ≢ get_current_transaction_id s

-- If the snapshot array has room for all running transactions, is as long as it says and holds
-- no id above the top level, GetSnapshot succeeds, its snapshot is well formed, and every tuple
-- that another running transaction has inserted is invisible in it.
pub no_dirty_read :
    (s : State) (old : SnapShotInfo) (i : ℕ) (c : TransactionContext) (t : TupleHeader)
    → IsReady s old
    → RunsBesides s i c
    → t.tmin ≡ c.transaction_id
    → (snapshot : SnapShotInfo) × (get_snapshot s old ≡ some snapshot)
      × IsSnapshot snapshot
      × (tuple_visibility_satisfy (get_current_transaction_id s) t (some snapshot)
          ≡ TupleVisibility.invisible)
no_dirty_read s old i c t ready runs e = (
  taken s old,
  get_snapshot-taken s old ready,
  taken-IsSnapshot s old,
  invisible_of (get_current_transaction_id s) t (taken s old) (taken-IsSnapshot s old) (λ k.
      elim (k.0.1) [
        | inl mine ↦ runs.other (sym e ∙ mine)
        | inr ended ↦ excluded (taken s old) t.tmin progress ended
      ]),
)
  where
    skip : skips (my_id s) c ≡ false
    skip = ground (arith, is_mine-current s c.transaction_id runs.other, runs.active)

    progress : InProgress (taken s old) t.tmin
    progress = inr (
        rw
          (
            take-append (running_besides s) (drop (length (running_besides s)) old.running_xid_arr),
            e,
          )
          (others-Among (my_id s) s.max_transaction_num i s.contexts c runs.inside runs.at_i skip))

-- If the first slot of the snapshot array still holds an id above the top level, GetSnapshot
-- succeeds with a snapshot in which every undeleted tuple that another running transaction with
-- an id below the top level has inserted is visible.
pub stale_dirty_read :
    (s : State) (old : SnapShotInfo) (r : ℕ) (rest : List ℕ) (i : ℕ) (c : TransactionContext)
    (t : TupleHeader)
    → old.running_xid_arr ≡ r ∷ rest
    → top_level s < r
    → RunsBesides s i c
    → c.transaction_id < top_level s
    → t.tmin ≡ c.transaction_id
    → t.tmax ≡ invalid_xtid
    → (snapshot : SnapShotInfo) × (get_snapshot s old ≡ some snapshot)
      × (tuple_visibility_satisfy (get_current_transaction_id s) t (some snapshot)
          ≡ TupleVisibility.visible)
unfolding get_snapshot tuple_visibility_satisfy
stale_dirty_read s old r rest i c t e stale runs below et et' =
    (blind, rw (e, get_active_xtids_stale s r rest old.xid_arr_max stale), ground arith)
  where
    blind : SnapShotInfo
    blind = record {
      high_level = top_level s;
      low_level = start_min (my_id s) (top_level s);
      xid_num = 0;
      xid_arr_max = old.xid_arr_max;
      running_xid_arr = r ∷ rest;
    }

generate_snapshot-flag :
    (s s' : State) (old snapshot : SnapShotInfo) (i : ℕ)
    → s.mine ≡ some i
    → i < length s.contexts
    → generate_snapshot IsolationLevel.read_repeatable s old ≡ some (s', snapshot)
    → (c : TransactionContext) × (get_elem? s'.contexts i ≡ some c) × (c.snapshot ≡ true)
unfolding generate_snapshot
generate_snapshot-flag s s' old snapshot i m h g =
    let (c, e) = get_elem?-total s.contexts i h in
    elim (Bool-cases c.snapshot) [
      | inl had ↦ (c, ground (arith, e), had)
      | inr had_not ↦ elim (Option-cases (get_snapshot s old)) [
        | inl fault ↦ absurd (ground (arith, e))
        | inr (new, done) ↦ (
          record c { snapshot = true },
          ground (arith, e, get_elem?-set_self s.contexts i (record c { snapshot = true }) h),
          refl,
        )
      ]
    ]

-- Under repeatable read, once GenerateSnapshot has produced a snapshot for a transaction,
-- calling it again changes neither the snapshot nor the state, whatever the other workers have
-- done in between.
pub generate_snapshot_once :
    (s s' s'' : State) (old snapshot : SnapShotInfo) (i : ℕ)
    → s.mine ≡ some i
    → i < length s.contexts
    → generate_snapshot IsolationLevel.read_repeatable s old ≡ some (s', snapshot)
    → s''.mine ≡ some i
    → get_elem? s''.contexts i ≡ get_elem? s'.contexts i
    → generate_snapshot IsolationLevel.read_repeatable s'' snapshot ≡ some (s'', snapshot)
unfolding generate_snapshot
generate_snapshot_once s s' s'' old snapshot i m h g m' same =
    ground (arith, generate_snapshot-flag s s' old snapshot i m h g)
