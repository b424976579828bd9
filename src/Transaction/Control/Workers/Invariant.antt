-- ===== src/Transaction/Control/Workers/Invariant.antt =====
-- The invariant of all workers together: own contexts, fresh and distinct ids.
use toadb.Base.{
  ℕ, zero, suc, ◌+◌, ◌%◌, ◌≤◌, ◌<◌, ◌≡◌, ◌≢◌, refl, false, List, [], ◌∷◌, Option, none, some, ◌>>=◌,
  get_elem?, get_elem?-total, set, length, length-set, subst, ap, set-get_elem?,
  get_elem?-set_cases, sym, ◌∙◌, replicate, length-replicate, arith, ◌⊎◌, inl, inr,
}
use toadb.Transaction.Xtid.{TransactionIdInfo, invalid_xtid, xtid_mod, transaction_info}
use toadb.Transaction.Control.{
  FsmState, is_idle, TransactionContext, Shared, Session, State, init_transact_context, zeroed,
  init_transact_context,
}
use toadb.Transaction.Control.Workers.Calls.{
  Op, run_op, Paired, Steps, stays, opens, turns, closes, run_op-Steps,
}

-- The shared state and the thread-local state of each worker, worker `k + 1` at position `k`.
pub record World : Type 0 where
  pub shared : Shared
  pub open shared use *
  pub sessions : List Session

-- Worker `k + 1` makes one call.
pub step : World → ℕ → Op → Option World
step w k op = do
  session ← get_elem? w.sessions k
  s ← run_op op (record { shared = w.shared; session = session })
  some (record { shared = s.shared; sessions = set w.sessions k s.session })

pub run : World → List (ℕ × Op) → Option World
run w [] = some w
run w ((k, op) ∷ calls) = do w' ← step w k op; run w' calls

abbrev IsActive : TransactionContext → Type 0
IsActive c = is_idle c.ts ≡ false

-- Each worker has its own context, which is active exactly while `myTransaction` points at it; the
-- ids of active transactions have been handed out, and no two are the same.
pub record Inv (w : World) : Type 0 where
  pub sized : length w.contexts ≡ w.max_transaction_num
  pub staffed : length w.sessions ≡ w.max_transaction_num
  pub numbered : (k : ℕ) (s : Session) → get_elem? w.sessions k ≡ some s → s.worker ≡ some (suc k)
  pub paired :
      (k : ℕ) (s : Session) (c : TransactionContext)
      → get_elem? w.sessions k ≡ some s
      → get_elem? w.contexts k ≡ some c
      → Paired k c s.mine
  pub issued :
      (k : ℕ) (c : TransactionContext)
      → get_elem? w.contexts k ≡ some c
      → c.transaction_id < w.ids.next_transaction_id
  pub distinct :
      (i j : ℕ) (c d : TransactionContext)
      → get_elem? w.contexts i ≡ some c
      → get_elem? w.contexts j ≡ some d
      → IsActive c
      → IsActive d
      → c.transaction_id ≡ d.transaction_id
      → i ≡ j

-- The id counter has not reached the last id but one, so it does not wrap.
abbrev pub HasIds : World → ℕ → Type 0
HasIds w calls = w.ids.next_transaction_id + calls < invalid_xtid

module _ (w : World) (v : Inv w) (k : ℕ) (s : Session) (c : TransactionContext)
    (at_s : get_elem? w.sessions k ≡ some s) (at_c : get_elem? w.contexts k ≡ some c)
    (room : HasIds w 1) where
  -- The world after a step that puts `c'` in the context and `mine` in the session.
  abbrev moved : TransactionIdInfo → TransactionContext → Option ℕ → World
  moved ids c' mine = record {
    shared = record (w.shared) { ids = ids; contexts = set w.contexts k c' };
    sessions = set w.sessions k (record { worker = some (suc k); mine = mine });
  }

  moved-Inv :
      (ids : TransactionIdInfo) (c' : TransactionContext) (mine : Option ℕ)
      → Paired k c' mine
      → w.ids.next_transaction_id ≤ ids.next_transaction_id
      → c'.transaction_id < ids.next_transaction_id
      → (c'.transaction_id ≡ w.ids.next_transaction_id)
        ⊎ (c'.transaction_id ≡ c.transaction_id) × (IsActive c' → IsActive c)
      → Inv (moved ids c' mine)
  moved-Inv ids c' mine p up below own = record {
    sized = omega (arith, v.sized, length-set w.contexts k c');
    staffed = omega (arith, v.staffed, length-set w.sessions k session);
    numbered = λ i t e. elim (get_elem?-set_cases w.sessions k i session t e) [
      | inl (same, new) ↦ ground arith
      | inr (differ, old) ↦ v.numbered i t old
    ];
    paired = λ i t d es ec. elim (get_elem?-set_cases w.sessions k i session t es) [
      | inl (same, new) ↦ elim (get_elem?-set_cases w.contexts k i c' d ec) [
        | inl (same', new') ↦ ground arith
        | inr (differ, old) ↦ absurd (differ same)
      ]
      | inr (differ, old) ↦ elim (get_elem?-set_cases w.contexts k i c' d ec) [
        | inl (same, new) ↦ absurd (differ same)
        | inr (differ', old') ↦ v.paired i t d old old'
      ]
    ];
    issued = λ i d e. elim (get_elem?-set_cases w.contexts k i c' d e) [
      | inl (same, new) ↦ rw new below
      | inr (differ, old) ↦ omega (arith, v.issued i d old)
    ];
    distinct = λ i j d e ed ee ad ae same_id. elim (get_elem?-set_cases w.contexts k i c' d ed) [
      | inl (same, new) ↦ elim (get_elem?-set_cases w.contexts k j c' e ee) [
        | inl (same', new') ↦ omega arith
        | inr (differ, old) ↦ other j e old ae (rw (← new) same_id) (rw (← new) ad) differ i same
      ]
      | inr (differ, old) ↦ elim (get_elem?-set_cases w.contexts k j c' e ee) [
        | inl (same', new') ↦
            sym (other i d old ad (rw (← new') (sym same_id)) (rw (← new') ae) differ j same')
        | inr (differ', old') ↦ v.distinct i j d e old old' ad ae same_id
      ]
    ];
  }
    where
      session : Session
      session = record { worker = some (suc k); mine = mine }

      -- No other active context has the id of the new one.
      other :
          (j : ℕ) (e : TransactionContext)
          → get_elem? w.contexts j ≡ some e
          → IsActive e
          → c'.transaction_id ≡ e.transaction_id
          → IsActive c'
          → k ≢ j
          → (i : ℕ) → k ≡ i
          → i ≡ j
      other j e old ae same_id ac differ i same = elim own [
        | inl fresh ↦ absurd (omega (arith, v.issued j e old))
        | inr (kept, was) ↦
            absurd (differ (v.distinct k j c e at_c old (was ac) ae (sym kept ∙ same_id)))
      ]

module _ (w : World) (v : Inv w) (k : ℕ) (room : HasIds w 1) where
  -- The outcome of a call: the next world, its invariant, and how the id levels have moved.
  abbrev pub Outcome : Option World → Type 0
  Outcome o =
      (w' : World) × (o ≡ some w')
      × Inv w'
      × (w'.ids.next_transaction_id ≤ w.ids.next_transaction_id + 1)
      × (w.ids.high_level_xtid ≤ w'.ids.high_level_xtid)
      × (w'.max_transaction_num ≡ w.max_transaction_num)

  step_from :
      (s : Session) (c : TransactionContext)
      → get_elem? w.sessions k ≡ some s
      → get_elem? w.contexts k ≡ some c
      → (o : Option State) → Steps k w.ids w.max_transaction_num w.contexts c s.mine o
      → Outcome
          (o >>= λ t. some (record { shared = t.shared; sessions = set w.sessions k t.session }))
  step_from s c es ec o (t, e, stays same) = (
    w,
    rw (e, same) (ground (arith, own, set-get_elem? w.sessions k own)),
    v,
    omega arith,
    omega arith,
    refl,
  )
    where
      own : get_elem? w.sessions k ≡ some (record { worker = some (suc k); mine = s.mine })
      own = ground (arith, v.numbered k s es)
  step_from s c es ec o (t, e, opens ts m i same) =
      let next = w.ids.next_transaction_id in
      let ids = record (w.ids) { next_transaction_id = (next + 1) % xtid_mod } in
      let c' : TransactionContext = record { ts = ts; transaction_id = next; snapshot = false } in
      (
        moved w v k s c es ec room ids c' (some k),
        rw (e, same) refl,
        moved-Inv w v k s c es ec room ids c' (some k) (inr (refl, i)) (omega arith) (omega arith)
            (inl refl),
        omega arith,
        omega arith,
        refl,
      )
  step_from s c es ec o (t, e, turns ts m i same) =
      let c' = record c { ts = ts } in
      (
        moved w v k s c es ec room w.ids c' (some k),
        rw (e, same) refl,
        moved-Inv w v k s c es ec room w.ids c' (some k) (inr (refl, i)) (omega arith)
            (v.issued k c ec) (inr (refl, λ _. ground (arith, v.paired k s c es ec))),
        omega arith,
        omega arith,
        refl,
      )
  step_from s c es ec o (t, e, closes high m up top same) =
      let ids = record (w.ids) { high_level_xtid = high } in
      let c' = record c { ts = FsmState.idle } in
      (
        moved w v k s c es ec room ids c' none,
        rw (e, same) refl,
        moved-Inv w v k s c es ec room ids c' none (inl (refl, refl)) (omega arith)
            (v.issued k c ec) (inr (refl, λ h. cc)),
        omega arith,
        up,
        refl,
      )

  -- A call by any of the workers returns; it keeps the invariant, hands out at most one id, and
  -- never lowers the high level.
  pub step_lem : (op : Op) → k < w.max_transaction_num → Outcome (step w k op)
  unfolding step
  step_lem op h =
      let (s, es) = get_elem?-total w.sessions k (omega (arith, v.staffed)) in
      let (c, ec) = get_elem?-total w.contexts k (omega (arith, v.sized)) in
      rw (es, ◌>>=◌)
        (step_from s c es ec _ (
          subst
            (λ worker. Steps k w.ids w.max_transaction_num w.contexts c s.mine (
              run_op op (record {
                shared = w.shared;
                session = record { worker = worker; mine = s.mine };
              })))
            (sym (v.numbered k s es))
            (run_op-Steps k w.ids w.max_transaction_num w.contexts c h ec op s.mine
              (v.paired k s c es ec) (omega (arith, v.issued k c ec)))))

-- The calls come from the workers of the pool.
abbrev pub ByWorkers : ℕ → List (ℕ × Op) → Type 0
ByWorkers n [] = Unit {0}
ByWorkers n ((k, op) ∷ calls) = (k < n) × ByWorkers n calls

-- Any history of calls by the workers runs to its end, and keeps the invariant, as long as the ids
-- do not run out.
pub run_lem :
    (calls : List (ℕ × Op)) (w : World)
    → Inv w
    → ByWorkers w.max_transaction_num calls
    → HasIds w (length calls)
    → (w' : World) × (run w calls ≡ some w')
      × Inv w'
      × (w.ids.high_level_xtid ≤ w'.ids.high_level_xtid)
unfolding run
run_lem [] w v b room = (w, refl, v, omega arith)
run_lem ((k, op) ∷ calls) w v b room =
    let r = step_lem w v k (omega arith) op b.0 in
    let rest =
      run_lem calls r.0 r.2 (subst (λ n. ByWorkers n calls) (sym r.5) b.1) (omega (arith, r.3)) in
    (rest.0, rw r.1 rest.1, rest.2, omega (arith, r.4, rest.3))

-- `n` workers before their first call.
abbrev pub crew : ℕ → ℕ → List Session
crew first zero = []
crew first (suc n) = record { worker = some (suc first); mine = none } ∷ crew (suc first) n

abbrev pub idle_world : TransactionIdInfo → ℕ → World
idle_world ids n = record {
  shared = record { ids = ids; max_transaction_num = n; contexts = replicate n zeroed };
  sessions = crew 0 n;
}

length-crew : (first n : ℕ) → length (crew first n) ≡ n
length-crew first zero = refl
length-crew first (suc n) = ap suc (length-crew (suc first) n)

crew_worker :
    (first n k : ℕ) (s : Session)
    → get_elem? (crew first n) k ≡ some s
    → (s.worker ≡ some (suc (first + k))) × (s.mine ≡ none)
crew_worker first zero k s e = cc
crew_worker first (suc n) zero s e = ground arith
crew_worker first (suc n) (suc k) s e = ground (arith, crew_worker (suc first) n k s e)

idle_context :
    (n k : ℕ) (c : TransactionContext) → get_elem? (replicate n zeroed) k ≡ some c → c ≡ zeroed
idle_context zero k c e = cc
idle_context (suc n) zero c e = ground arith
idle_context (suc n) (suc k) c e = idle_context n k c e

pub idle_world-Inv :
    (ids : TransactionIdInfo) (n : ℕ) → 0 < ids.next_transaction_id → Inv (idle_world ids n)
idle_world-Inv ids n h = record {
  sized = length-replicate n zeroed;
  staffed = length-crew 0 n;
  numbered = λ k s e. ground (arith, crew_worker 0 n k s e);
  paired = λ k s c es ec. ground (arith, crew_worker 0 n k s es, idle_context n k c ec);
  issued = λ k c e. ground (arith, idle_context n k c e);
  distinct = λ i j c d ec ed ac ad same. ground (arith, idle_context n i c ec);
}

-- From InitTransactContext for n > 0 workers, every history of calls by these workers that does
-- not exhaust the ids runs to its end, in a world where each worker's myTransaction points at
-- its own context exactly while that is active, all ids in contexts have been handed out, and
-- no two active transactions share an id.
pub init_run-Inv :
    (n : ℕ) (calls : List (ℕ × Op))
    → 0 < n
    → ByWorkers n calls
    → length calls + 1 < invalid_xtid
    → (shared : Shared) × (w : World) × (init_transact_context transaction_info n ≡ some shared)
      × (run (record { shared = shared; sessions = crew 0 n }) calls ≡ some w)
      × Inv w
unfolding init_transact_context
init_run-Inv n calls h b room =
    let start = idle_world transaction_info n in
    let r = run_lem calls start (idle_world-Inv transaction_info n (omega arith)) b (omega arith) in
    (start.shared, r.0, ground arith, r.1, r.2)
