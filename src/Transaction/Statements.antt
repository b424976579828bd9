-- ===== src/Transaction/Statements.antt =====
-- sqlcore/executor/execTransaction.c, and the calls around a statement in toadmain/toadmain.c.
use toadb.Base.{
  ℕ, ◌≤◌, ◌<◌, ◌≡◌, refl, sym, ap, ◌∙◌, Bool, true, false, List, Option, none, some, ◌>>=◌,
  get_elem?, arith, get_elem?-set_self, lt-length, set-set, set-get_elem?, set, Bool-cases,
  Option-cases, inl, inr,
}
use toadb.Transaction.Xtid.{invalid_xtid}
use toadb.Transaction.Xtid.Levels.{Rising, set_high_level_raises}
use toadb.Transaction.Control.{
  FsmState, TransactionContext, State, start_transaction, begin_transaction, end_transaction,
  abort_transaction, finish_transaction, finish_idle, finish_switch, put_mine, put_ids,
  get_current_transaction_state, my_context, put_context, IsolationLevel,
}
use toadb.Transaction.Snapshot.{SnapShotInfo, get_snapshot, is_new_snapshot, generate_snapshot}

pub data TransactionTag : Type 0 where
  tf_begin tf_end tf_commit tf_rollback tf_savepoint tf_unknown : TransactionTag

-- A step that is made in a transaction only, and the return value, where `false` is -1.
abbrev pub unless_idle : (State → Option State) → FsmState → State → Option (Bool × State)
unless_idle step FsmState.idle s = some (false, s)
unless_idle step _ s = do s' ← step s; some (true, s')

unfoldable pub exec_transaction : TransactionTag → State → Option (Bool × State)
exec_transaction TransactionTag.tf_begin s = do s' ← begin_transaction s; some (true, s')
exec_transaction TransactionTag.tf_end s =
    unless_idle end_transaction (get_current_transaction_state s) s
exec_transaction TransactionTag.tf_commit s =
    unless_idle end_transaction (get_current_transaction_state s) s
exec_transaction TransactionTag.tf_rollback s =
    unless_idle abort_transaction (get_current_transaction_state s) s
exec_transaction TransactionTag.tf_savepoint s = some (true, s)
exec_transaction TransactionTag.tf_unknown s = some (false, s)

-- What ExecutorPlan does to the transaction: `none` as the tag is any statement but those.
abbrev pub executor_plan : Option TransactionTag → State → Option State
executor_plan none s = some s
executor_plan (some tag) s = do (ret, s') ← exec_transaction tag s; some s'

-- ExecutorMain for a statement of one plan: ExecutorStart generates the snapshot, for every plan.
unfoldable pub executor_main :
    IsolationLevel → Option TransactionTag → State → SnapShotInfo → Option (State × SnapShotInfo)
executor_main level tag s snapshot = do
  (s', snapshot') ← generate_snapshot level s snapshot
  s'' ← executor_plan tag s'
  some (s'', snapshot')

-- The loop's body in `ToadMainEntry` from `StartTransaction` on. IncCommandCount is empty.
unfoldable pub run_statement :
    IsolationLevel
    → List ℕ
    → Option TransactionTag
    → State
    → SnapShotInfo
    → Option (State × SnapShotInfo)
run_statement level seen tag s snapshot = do
  s1 ← start_transaction s
  (s2, snapshot') ← executor_main level tag s1 snapshot
  s3 ← finish_transaction seen s2
  some (s3, snapshot')

abbrev pub closes : Option TransactionTag → Bool
closes (some TransactionTag.tf_end) = true
closes (some TransactionTag.tf_commit) = true
closes (some TransactionTag.tf_rollback) = true
closes _ = false

-- The end of a transaction: myTransaction is NULL, the context is idle with its id, the other
-- contexts are as they were, and of the ids only the high level has risen.
abbrev Closed : State → ℕ → TransactionContext → Option State → Type 0
Closed s i c r =
    (s' : State) × (high : ℕ) × (r ≡ some s')
    × (s'.mine ≡ none)
    × (s'.contexts ≡ set s.contexts i (record c { ts = FsmState.idle }))
    × (s'.ids ≡ record (s.ids) { high_level_xtid = high })
    × (c.transaction_id ≤ high)
    × (s.ids.high_level_xtid ≤ high)

abbrev Runs : State → ℕ → TransactionContext → Bool → Option State → Type 0
Runs s i c true r = Closed s i c r
Runs s i c false r = r ≡ some s

-- A context that GenerateSnapshot has marked.
abbrev pub marked : TransactionContext → TransactionContext
marked c = record c { snapshot = true }

-- The state `s'` at the end of a statement in a transaction with the context `c`. If it closes
-- the transaction, myTransaction is NULL, the context is idle with its id, the other contexts are
-- as they were, and of the ids only the high level has risen.
abbrev pub Ends : State → ℕ → TransactionContext → Bool → State → Type 0
Ends s i c true s' =
    (high : ℕ) × (s'.mine ≡ none)
    × (s'.contexts ≡ set s.contexts i (record (marked c) { ts = FsmState.idle }))
    × (s'.ids ≡ record (s.ids) { high_level_xtid = high })
    × (c.transaction_id ≤ high)
    × (s.ids.high_level_xtid ≤ high)
Ends s i c false s' = s' ≡ put_context s i (marked c)

was_marked :
    (c : TransactionContext) (level : IsolationLevel)
    → is_new_snapshot level c ≡ false
    → c ≡ marked c
was_marked c level kept = ground arith

-- The calls of a worker whose open transaction is `c`.
module _ (s : State) (i : ℕ) (c : TransactionContext) (mine : s.mine ≡ some i)
    (at : get_elem? s.contexts i ≡ some c) (began : c.ts ≡ FsmState.begin) where
  start_again : start_transaction s ≡ some s
  unfolding start_transaction
  start_again = simp (start_transaction, mine) refl

  state_is_begin : get_current_transaction_state s ≡ FsmState.begin
  unfolding get_current_transaction_state
  state_is_begin = simp (get_current_transaction_state, my_context, mine, at) began

  finish_later : (seen : List ℕ) → finish_transaction seen s ≡ some s
  unfolding finish_transaction
  finish_later seen = simp (finish_transaction, mine, at, began) refl

  begin_again : begin_transaction s ≡ some s
  unfolding begin_transaction
  begin_again = simp (begin_transaction, mine, at, began) refl

  abbrev closing : FsmState → State
  closing ts = put_context s i (record c { ts = ts })

  end_now : end_transaction s ≡ some (closing FsmState.commit)
  unfolding end_transaction
  end_now = ground (arith, mine, at, began)

  abort_now : abort_transaction s ≡ some (closing FsmState.abort)
  unfolding abort_transaction
  abort_now = ground (arith, mine, at, began)

  -- `finish_switch` of a commit and of an abort.
  closing_done :
      (seen : List ℕ) (ts : FsmState)
      → c.transaction_id < invalid_xtid
      → Rising s.ids.high_level_xtid seen
      → Closed s i c (finish_idle seen i (record c { ts = ts }) (closing ts))
  closing_done seen ts v up =
      let r = set_high_level_raises seen s.ids c.transaction_id v up in
      let c1 : TransactionContext = record c { ts = ts } in
      let c2 : TransactionContext = record c { ts = FsmState.idle } in
      (
        put_mine
            (put_ids (put_context (closing ts) i c2) (record (s.ids) { high_level_xtid = r.1 }))
            none,
        r.1,
        simp (r.2) refl,
        refl,
        set-set s.contexts i c1 c2,
        refl,
        r.3,
        r.4,
      )

  finish_switched :
      (seen : List ℕ) (ts : FsmState)
      → finish_transaction seen (closing ts)
        ≡ finish_switch ts seen i (record c { ts = ts }) (closing ts)
  unfolding finish_transaction
  finish_switched seen ts =
      let self =
        get_elem?-set_self s.contexts i (record c { ts = ts }) (lt-length s.contexts i at) in
      simp (finish_transaction, mine, self) refl

  committed :
      (seen : List ℕ)
      → c.transaction_id < invalid_xtid
      → Rising s.ids.high_level_xtid seen
      → Closed s i c (do
        s' ← do (ret, s') ← unless_idle end_transaction (get_current_transaction_state s) s; some s'
        finish_transaction seen s')
  committed seen v up =
      rw (state_is_begin, end_now, finish_switched seen FsmState.commit)
        (closing_done seen FsmState.commit v up)

  rolled_back :
      (seen : List ℕ)
      → c.transaction_id < invalid_xtid
      → Rising s.ids.high_level_xtid seen
      → Closed s i c (do
        s' ← do
          (ret, s') ← unless_idle abort_transaction (get_current_transaction_state s) s
          some s'
        finish_transaction seen s')
  rolled_back seen v up =
      rw (state_is_begin, abort_now, finish_switched seen FsmState.abort)
        (closing_done seen FsmState.abort v up)

  -- The plan and the end of a statement.
  plan-Runs :
      (seen : List ℕ) (tag : Option TransactionTag)
      → c.transaction_id < invalid_xtid
      → Rising s.ids.high_level_xtid seen
      → Runs s i c (closes tag) (do s' ← executor_plan tag s; finish_transaction seen s')
  unfolding exec_transaction
  plan-Runs seen none v up = finish_later seen
  plan-Runs seen (some TransactionTag.tf_begin) v up = rw (begin_again) (finish_later seen)
  plan-Runs seen (some TransactionTag.tf_end) v up = committed seen v up
  plan-Runs seen (some TransactionTag.tf_commit) v up = committed seen v up
  plan-Runs seen (some TransactionTag.tf_rollback) v up = rolled_back seen v up
  plan-Runs seen (some TransactionTag.tf_savepoint) v up = finish_later seen
  plan-Runs seen (some TransactionTag.tf_unknown) v up = finish_later seen

abbrev with_snapshot : State → SnapShotInfo → State × SnapShotInfo
with_snapshot s snapshot = (s, snapshot)

bind-pair :
    (o : Option State) (f : State → Option State) (snapshot : SnapShotInfo) (s' : State)
    → (o >>= f) ≡ some s'
    → (do r ← (do x ← o; some (with_snapshot x snapshot)); y ← f r.0; some (with_snapshot y r.1))
      ≡ some (with_snapshot s' snapshot)
bind-pair none f snapshot s' e = absurd (cc)
bind-pair (some a) f snapshot s' e = rw e refl

-- The snapshot, then the plan.
module _ (s : State) (i : ℕ) (c : TransactionContext) (mine : s.mine ≡ some i)
    (at : get_elem? s.contexts i ≡ some c) (began : c.ts ≡ FsmState.begin) where
  generate_snapshot-marks :
      (level : IsolationLevel) (s1 : State) (old snapshot : SnapShotInfo)
      → generate_snapshot level s old ≡ some (s1, snapshot)
      → s1 ≡ put_context s i (marked c)
  unfolding generate_snapshot
  generate_snapshot-marks level s1 old snapshot g = elim (Bool-cases (is_new_snapshot level c)) [
    | inl new ↦ elim (Option-cases (get_snapshot s old)) [
      | inl out ↦ absurd (ground arith)
      | inr (snapshot', taken) ↦ ground arith
    ]
    | inr kept ↦
        let still = set-get_elem? s.contexts i at in
        let same : s1 ≡ s = ground arith in
        let was : c ≡ marked c = was_marked c level kept in
        same
        ∙ ap
            (λ (l : List TransactionContext). record s {
              shared = record (s.shared) { contexts = l };
            })
            (sym still)
        ∙ ap (put_context s i) was
  ]

  Runs-Ends :
      (b : Bool) (r : Option State)
      → Runs (put_context s i (marked c)) i (marked c) b r
      → (s' : State) × (r ≡ some s') × Ends s i c b s'
  Runs-Ends true r (s', high, e, gone, contexts, ids, above, raised) = (
    s',
    e,
    (
      high,
      gone,
      contexts ∙ set-set s.contexts i (marked c) (record (marked c) { ts = FsmState.idle }),
      ids,
      above,
      raised,
    ),
  )
  Runs-Ends false r e = (put_context s i (marked c), e, refl)

  -- While other workers only raise the high level, and if GenerateSnapshot returns, a
  -- statement of one plan that a worker runs in a transaction begun by BEGIN returns with the
  -- snapshot that GenerateSnapshot makes, and changes nothing but the mark of that in its
  -- context, unless it is END, COMMIT or ROLLBACK: then myTransaction is NULL afterwards, the
  -- context is idle with its id, the other contexts are as before, and of the ids only the
  -- high level has changed, to one that is at least the transaction's id and not lower than
  -- before.
  pub open_statement-Runs :
      (level : IsolationLevel) (seen : List ℕ) (tag : Option TransactionTag) (s1 : State)
      (old snapshot : SnapShotInfo)
      → c.transaction_id < invalid_xtid
      → Rising s.ids.high_level_xtid seen
      → generate_snapshot level s old ≡ some (s1, snapshot)
      → (s' : State) × (run_statement level seen tag s old ≡ some (s', snapshot))
        × Ends s i c (closes tag) s'
  unfolding run_statement executor_main
  open_statement-Runs level seen tag s1 old snapshot v up g =
      let after : State = put_context s i (marked c) in
      let made : generate_snapshot level s old ≡ some (after, snapshot) =
        g ∙ ap (λ x. some (x, snapshot)) (generate_snapshot-marks level s1 old snapshot g) in
      let there = get_elem?-set_self s.contexts i (marked c) (lt-length s.contexts i at) in
      let runs = plan-Runs after i (marked c) mine there began seen tag v up in
      let (s', e, ends) =
        Runs-Ends (closes tag) (do x ← executor_plan tag after; finish_transaction seen x) runs in
      (
        s',
        rw (start_again s i c mine at began, made)
            (bind-pair (executor_plan tag after) (finish_transaction seen) snapshot s' e),
        ends,
      )
