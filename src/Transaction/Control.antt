-- ===== src/Transaction/Control.antt =====
-- sqlcore/transaction/transactionControl.c: the state of each worker's transaction. The shared
-- array `procTransactionInfo` has one context for each worker; `myTransaction` is thread-local.
pub mod Workers
use toadb.Base.{
  ℕ, zero, suc, ◌+◌, ◌-◌, ◌≡◌, Bool, true, false, List, [], ◌∷◌, Option, none, some, ltb, leb, ◌==◌,
  if◌then◌else◌, not, ◌||◌, ◌&&◌, ◌>>=◌, get_elem?, get_or, set, replicate,
}
use toadb.Transaction.Xtid.{
  TransactionIdInfo, invalid_xtid, get_new_transaction_id, set_high_level_transaction,
}

pub data IsolationLevel : Type 0 where
  read_commited read_repeatable : IsolationLevel

pub data FsmState : Type 0 where
  idle start begin inprocess commit abort unknown : FsmState

abbrev pub is_idle : FsmState → Bool
is_idle FsmState.idle = true
is_idle _ = false

pub record TransactionContext : Type 0 where
  pub ts : FsmState
  pub transaction_id : ℕ
  pub snapshot : Bool

-- `memset` to 0.
abbrev pub zeroed : TransactionContext
zeroed = record { ts = FsmState.idle; transaction_id = 0; snapshot = false }

-- What all workers share: the ids of xtid.c and `procTransactionInfo`.
pub record Shared : Type 0 where
  pub ids : TransactionIdInfo
  pub max_transaction_num : ℕ
  pub contexts : List TransactionContext

-- What one worker thread has: `GetCurrentWorkerIndex()`, where `none` is its -1, and the index in
-- `contexts` that `myTransaction` points at, where `none` is NULL.
pub record Session : Type 0 where
  pub worker : Option ℕ
  pub mine : Option ℕ

pub record State : Type 0 where
  pub shared : Shared
  pub open shared use *
  pub session : Session
  pub open session use *

-- The return value -1 is `none`.
pub init_transact_context : TransactionIdInfo → ℕ → Option Shared
init_transact_context ids max_num =
    if max_num == 0
    then none
    else some
        (record { ids = ids; max_transaction_num = max_num; contexts = replicate max_num zeroed })

abbrev pub put_context : State → ℕ → TransactionContext → State
put_context s i c = record s { shared = record (s.shared) { contexts = set s.contexts i c } }

abbrev pub put_ids : State → TransactionIdInfo → State
put_ids s ids = record s { shared = record (s.shared) { ids = ids } }

abbrev pub put_mine : State → Option ℕ → State
put_mine s m = record s { session = record (s.session) { mine = m } }

-- The first lines of `StartTransaction` and `BeginTransaction`: an access outside the array, an
-- index that is refused, or the context that the worker has now.
pub data Claim : Type 0 where
  fault : Claim
  refused : Claim
  claimed : ℕ → TransactionContext → State → Claim

abbrev pub claim_at : State → ℕ → Option TransactionContext → Claim
claim_at s i none = fault
claim_at s i (some c) =
    let c' : TransactionContext = record c { snapshot = false } in
    claimed i c' (put_mine (put_context s i c') (some i))

abbrev pub claim_worker : State → Option ℕ → Claim
claim_worker s none = fault
claim_worker s (some zero) = fault
claim_worker s (some (suc i)) =
    if ltb s.max_transaction_num (suc i) then refused else claim_at s i (get_elem? s.contexts i)

abbrev pub claim : State → Claim
claim s = claim_worker s s.worker

-- `TS_IDLE == ts` in `StartTransaction`; otherwise it logs an error.
abbrev pub start_claimed : ℕ → TransactionContext → State → State
start_claimed i c s =
    let (xid, ids) = get_new_transaction_id s.ids in
    if is_idle c.ts
    then put_ids (put_context s i (record c { ts = FsmState.start; transaction_id = xid })) ids
    else s

abbrev pub start_from : State → Claim → Option State
start_from s fault = none
start_from s refused = some s
start_from s (claimed i c s') = some (start_claimed i c s')

-- `none` is an access outside the array of contexts.
unfoldable pub start_transaction : State → Option State
unfolding get_new_transaction_id
start_transaction s = elim s.mine [ some i ↦ some s | none ↦ start_from s (claim s) ]

-- The `switch` of `BeginTransaction`: `TS_IDLE` falls through into `TS_START`.
abbrev pub begin_switch : FsmState → ℕ → TransactionContext → State → State
begin_switch FsmState.idle i c s =
    let (xid, ids) = get_new_transaction_id s.ids in
    put_ids (put_context s i (record c { ts = FsmState.begin; transaction_id = xid })) ids
begin_switch FsmState.start i c s = put_context s i (record c { ts = FsmState.begin })
begin_switch _ i c s = s

abbrev pub begin_from : State → Claim → Option State
begin_from s fault = none
begin_from s refused = some s
begin_from s (claimed i c s') = some (begin_switch c.ts i c s')

unfoldable pub begin_transaction : State → Option State
unfolding get_new_transaction_id
begin_transaction s = elim s.mine [
  | none ↦ begin_from s (claim s)
  | some i ↦ do c ← get_elem? s.contexts i; some (begin_switch c.ts i c s)
]

-- `EndTransaction` and `AbortTransaction`: any state but `TS_IDLE` becomes `ts`.
abbrev pub close_switch : FsmState → ℕ → TransactionContext → State → State
close_switch ts i c s = if is_idle c.ts then s else put_context s i (record c { ts = ts })

abbrev pub close_transaction : FsmState → State → Option State
close_transaction ts s = elim s.mine [
  | none ↦ some s
  | some i ↦ do c ← get_elem? s.contexts i; some (close_switch ts i c s)
]

unfoldable pub end_transaction : State → Option State
end_transaction s = close_transaction FsmState.commit s

unfoldable pub abort_transaction : State → Option State
abort_transaction s = close_transaction FsmState.abort s

-- The state is idle before `SetHighLevelTransaction` is called, and `myTransaction` is NULL after.
abbrev pub finish_idle : List ℕ → ℕ → TransactionContext → State → Option State
finish_idle seen i c s = do
  let s' = put_context s i (record c { ts = FsmState.idle })
  r ← set_high_level_transaction seen s'.ids c.transaction_id
  some (put_mine (put_ids s' r.1) none)

abbrev pub finish_switch : FsmState → List ℕ → ℕ → TransactionContext → State → Option State
finish_switch FsmState.start seen i c s = finish_idle seen i c s
finish_switch FsmState.commit seen i c s = finish_idle seen i c s
finish_switch FsmState.abort seen i c s = finish_idle seen i c s
finish_switch _ seen i c s = some s

-- `seen` is what other workers do to the high level meanwhile.
unfoldable pub finish_transaction : List ℕ → State → Option State
finish_transaction seen s = elim s.mine [
  | none ↦ some s
  | some i ↦ do c ← get_elem? s.contexts i; finish_switch c.ts seen i c s
]

abbrev pub my_context : State → Option TransactionContext
my_context s = do i ← s.mine; get_elem? s.contexts i

unfoldable pub get_current_transaction_state : State → FsmState
get_current_transaction_state s = elim (my_context s) [ none ↦ FsmState.idle | some c ↦ c.ts ]

unfoldable pub get_current_transaction_id : State → ℕ
get_current_transaction_id s = elim (my_context s) [
  | none ↦ invalid_xtid
  | some c ↦ c.transaction_id
]
