-- ===== src/Transaction/Control/Workers/Calls.antt =====
-- One call of one worker, as a step of the worker's own state machine.
use toadb.Base.{
  ℕ, suc, ◌+◌, ◌%◌, ◌≤◌, ◌<◌, ◌≡◌, refl, true, false, List, [], Option, none, some, get_elem?, set,
  set-set, arith, ◌⊎◌, inl, inr,
}
use toadb.Transaction.Xtid.{TransactionIdInfo, xtid_mod, invalid_xtid}
use toadb.Transaction.Xtid.Levels.{set_high_level_raises}
use toadb.Transaction.Control.{
  FsmState, is_idle, close_transaction, finish_idle, TransactionContext, State, start_transaction,
  begin_transaction, end_transaction, abort_transaction, finish_transaction,
}

pub data Op : Type 0 where
  starts begins ends aborts finishes : Op

abbrev pub run_op : Op → State → Option State
run_op Op.starts s = start_transaction s
run_op Op.begins s = begin_transaction s
run_op Op.ends s = end_transaction s
run_op Op.aborts s = abort_transaction s
run_op Op.finishes s = finish_transaction [] s

-- The state that worker number `k + 1` sees.
abbrev pub seen_by : ℕ → TransactionIdInfo → ℕ → List TransactionContext → Option ℕ → State
seen_by k ids n cs mine = record {
  shared = record { ids = ids; max_transaction_num = n; contexts = cs };
  session = record { worker = some (suc k); mine = mine };
}

-- `myTransaction` points at the worker's own context exactly when that is not idle.
abbrev pub Paired : ℕ → TransactionContext → Option ℕ → Type 0
Paired k c mine =
    ((mine ≡ none) × (is_idle c.ts ≡ true)) ⊎ ((mine ≡ some k) × (is_idle c.ts ≡ false))

-- The state machine of one worker, whose context is `c` before the step.
module _ (k : ℕ) (ids : TransactionIdInfo) (n : ℕ) (cs : List TransactionContext)
    (c : TransactionContext) (mine : Option ℕ) where
  pub data Step (s : State) : Type 0 where
    stays : s ≡ seen_by k ids n cs mine → Step s
    opens :
        (ts : FsmState)
        → mine ≡ none
        → is_idle ts ≡ false
        → s
          ≡ seen_by k
              (record ids { next_transaction_id = (ids.next_transaction_id + 1) % xtid_mod })
              n
              (set cs k
                (record { ts = ts; transaction_id = ids.next_transaction_id; snapshot = false }))
              (some k)
        → Step s
    turns :
        (ts : FsmState)
        → mine ≡ some k
        → is_idle ts ≡ false
        → s ≡ seen_by k ids n (set cs k (record c { ts = ts })) (some k)
        → Step s
    closes :
        (high : ℕ)
        → mine ≡ some k
        → ids.high_level_xtid ≤ high
        → c.transaction_id ≤ high
        → s
          ≡ seen_by k
              (record ids { high_level_xtid = high })
              n
              (set cs k (record c { ts = FsmState.idle }))
              none
        → Step s

  abbrev pub Steps : Option State → Type 0
  Steps o = (s : State) × (o ≡ some s) × Step s

module _ (k : ℕ) (ids : TransactionIdInfo) (n : ℕ) (cs : List TransactionContext)
    (c : TransactionContext) (inside : suc k ≤ n) (at_k : get_elem? cs k ≡ some c) where
  start_idle :
      is_idle c.ts ≡ true → Steps k ids n cs c none (start_transaction (seen_by k ids n cs none))
  unfolding start_transaction
  start_idle i = (
    _,
    ground (
      arith,
      set-set cs k (record c { snapshot = false })
          (record {
            ts = FsmState.start;
            transaction_id = ids.next_transaction_id;
            snapshot = false;
          }),
    ),
    opens FsmState.start refl refl refl,
  )

  begin_idle :
      c.ts ≡ FsmState.idle → Steps k ids n cs c none (begin_transaction (seen_by k ids n cs none))
  unfolding begin_transaction
  begin_idle i = (
    _,
    ground (
      arith,
      set-set cs k (record c { snapshot = false })
          (record {
            ts = FsmState.begin;
            transaction_id = ids.next_transaction_id;
            snapshot = false;
          }),
    ),
    opens FsmState.begin refl refl refl,
  )

  begin_open :
      (ts : FsmState)
      → c.ts ≡ ts
      → is_idle ts ≡ false
      → Steps k ids n cs c (some k) (begin_transaction (seen_by k ids n cs (some k)))
  unfolding begin_transaction
  begin_open FsmState.idle e i = cc
  begin_open FsmState.start e i = (_, ground arith, turns FsmState.begin refl refl refl)
  begin_open _ e i = (_, ground arith, stays refl)

  close_open :
      (ts : FsmState)
      → is_idle ts ≡ false
      → is_idle c.ts ≡ false
      → Steps k ids n cs c (some k) (close_transaction ts (seen_by k ids n cs (some k)))
  close_open ts i j = (_, ground arith, turns ts refl i refl)

  finish_closing :
      c.transaction_id < invalid_xtid
      → Steps k ids n cs c (some k) (finish_idle [] k c (seen_by k ids n cs (some k)))
  finish_closing b =
      let r = set_high_level_raises [] ids c.transaction_id b tt in
      (_, rw (r.2) refl, closes r.1 refl r.4 r.3 refl)

  finish_open :
      (ts : FsmState)
      → c.ts ≡ ts
      → is_idle ts ≡ false
      → c.transaction_id < invalid_xtid
      → Steps k ids n cs c (some k) (finish_transaction [] (seen_by k ids n cs (some k)))
  unfolding finish_transaction
  finish_open FsmState.idle e i b = cc
  finish_open FsmState.start e i b = let r = finish_closing b in (r.0, ground (arith, r.1), r.2)
  finish_open FsmState.commit e i b = let r = finish_closing b in (r.0, ground (arith, r.1), r.2)
  finish_open FsmState.abort e i b = let r = finish_closing b in (r.0, ground (arith, r.1), r.2)
  finish_open _ e i b = (_, ground arith, stays refl)

  idle_of : (ts : FsmState) → is_idle ts ≡ true → ts ≡ FsmState.idle
  idle_of FsmState.idle i = refl
  idle_of _ i = cc

  -- Each call of a worker whose `myTransaction` is paired with its context returns, and is a step
  -- of the worker's state machine.
  pub run_op-Steps :
      (op : Op) (mine : Option ℕ)
      → Paired k c mine
      → c.transaction_id < invalid_xtid
      → Steps k ids n cs c mine (run_op op (seen_by k ids n cs mine))
  unfolding end_transaction abort_transaction
  run_op-Steps op none (inr (e, i)) b = cc
  run_op-Steps op (some j) (inl (e, i)) b = cc
  run_op-Steps Op.starts none (inl (e, i)) b = start_idle i
  run_op-Steps Op.begins none (inl (e, i)) b = begin_idle (idle_of c.ts i)
  run_op-Steps Op.ends none (inl (e, i)) b = (_, refl, stays refl)
  run_op-Steps Op.aborts none (inl (e, i)) b = (_, refl, stays refl)
  run_op-Steps Op.finishes none (inl (e, i)) b = unfold finish_transaction in (_, refl, stays refl)
  run_op-Steps op (some j) (inr (e, i)) b = let same : j ≡ k = ground arith in rw same (held op)
    where
      held : (op : Op) → Steps k ids n cs c (some k) (run_op op (seen_by k ids n cs (some k)))
      held Op.starts = unfold start_transaction in (_, refl, stays refl)
      held Op.begins = begin_open c.ts refl i
      held Op.ends = close_open FsmState.commit refl i
      held Op.aborts = close_open FsmState.abort refl i
      held Op.finishes = finish_open c.ts refl i b
