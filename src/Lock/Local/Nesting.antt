-- ===== src/Lock/Local/Nesting.antt =====
-- Acquiring and releasing through the local table: how often a lock is held, and when the process's
-- lock itself is touched.
use toadb.Base.{
  ℕ, zero, suc, ◌+◌, ◌-◌, ◌≤◌, ◌≡◌, inl, inr, refl, Bool, true, false, List, [], ◌∷◌, some, ltb,
  leb, ◌==◌, ◌&&◌, not, if◌then◌else◌, get_elem?, set, length, arith, lt→ltb, Bool-cases, ==_refl,
  ◌++◌,
}
use toadb.Lock.Rwlock.{Pthread, LockMode, LockResult, RwLockInfo, mode_eq, acquire_rw_lock}
use toadb.Lock.Local.{LocalLockInfo, Locks, max_local_lock_num, acquire_local, held_again, hold_if}
use toadb.Lock.Local.Table.{
  held, held_mode, adjust, IsTable, Found, search_cases, held-adjust, held-append, adjust-IsTable,
  append-IsTable,
}

abbrev pub is_acquired : LockResult → Bool
is_acquired LockResult.acquired = true
is_acquired _ = false

counted :
    (t : List LocalLockInfo)
    → IsTable t
    → (i : ℕ) (e : LocalLockInfo) → get_elem? t i ≡ some e
    → 1 ≤ e.lock_cnt
counted [] v i e h = cc
counted (d ∷ t) v zero e h = ground (arith, v.1)
counted (d ∷ t) v (suc i) e h = counted t v.2 i e h

module _ (P : Pthread) (s : Locks P) (p : ℕ) where
  -- What a call on the lock `p` with result `r` leaves: a table in which only the holds of `p` have
  -- changed, to `n` if the call succeeded; every other lock as it was, and `p` itself too if `kept`.
  pub record Leaves (n : ℕ) (kept : Bool) (r : LockResult) (t : Locks P) : Type 0 where
    pub table : IsTable t.table
    pub count : (q : ℕ) → held t.table q ≡ (if is_acquired r && p == q then n else held s.table q)
    pub store : (q : ℕ) → ((p == q) && not kept) ≡ false → t.store q ≡ s.store q

-- What AcquireRWLockLocal answers, where `r` is what AcquireRWLock would answer.
abbrev pub acquire_answer : List LocalLockInfo → ℕ → LockMode → LockResult → LockResult
acquire_answer table p mode r =
    if leb max_local_lock_num (length table)
    then LockResult.failed
    else if ltb 0 (held table p)
    then (if mode_eq (held_mode table p) mode then LockResult.acquired else LockResult.dead_lock)
    else r

-- The table after an answer.
abbrev pub acquired_table : List LocalLockInfo → ℕ → LockMode → LockResult → List LocalLockInfo
acquired_table table p mode r =
    if is_acquired r
    then (if ltb 0 (held table p)
        then adjust (λ n. n + 1) p table
        else table ++ record { lock = some p; lock_mode = mode; lock_cnt = 1 } ∷ [])
    else table

-- The lock is acquired where there is room for it and it is not held.
abbrev pub calls_acquire : List LocalLockInfo → ℕ → Bool
calls_acquire table p = not (leb max_local_lock_num (length table)) && not (ltb 0 (held table p))

module _ (P : Pthread) (s : Locks P) (p : ℕ) (v : IsTable s.table) where
  same_Leaves :
      (n : ℕ) (kept : Bool) (r : LockResult) → is_acquired r ≡ false → Leaves P s p n kept r s
  same_Leaves n kept r h = record { table = v; count = λ q. rw h; store = λ q k. refl }

  held_again-Leaves :
      (i : ℕ) (e : LocalLockInfo) (mode : LockMode)
      → Found s.table p i e
      → 1 ≤ held s.table p
      → Leaves P s p
          (held s.table p + 1)
          true
          (held_again P s i mode e).0
          (held_again P s i mode e).1
  held_again-Leaves i e mode found pos = elim (Bool-cases (mode_eq e.lock_mode mode)) [
    | inl same ↦ rw same (record {
      table =
          rw (found.adjusted (λ n. n + 1)) (adjust-IsTable (λ n. n + 1) p s.table v (omega arith));
      count = λ q.
          rw (found.adjusted (λ n. n + 1)) (held-adjust (λ n. n + 1) p q s.table (omega arith));
      store = λ q h. refl;
    })
    | inr differ ↦ rw differ (same_Leaves (held s.table p + 1) true LockResult.dead_lock refl)
  ]

  hold_if-Leaves :
      (mode : LockMode) (r : LockResult) (l : RwLockInfo P)
      → held s.table p ≡ 0
      → Leaves P s p 1 false (hold_if P p mode (r, l) s).0 (hold_if P p mode (r, l) s).1
  hold_if-Leaves mode LockResult.acquired l h = record {
    table = append-IsTable p mode s.table h v;
    count = λ q. held-append p q mode s.table h v;
    store = λ q k. ground arith;
  }
  hold_if-Leaves mode _ l h = record { table = v; count = λ q. refl; store = λ q k. ground arith }

  -- The results, the table and the lock in the two cases with room in the table.
  hold_if_lem :
      (mode : LockMode) (r : LockResult) (l : RwLockInfo P)
      → held s.table p ≡ 0
      → leb max_local_lock_num (length s.table) ≡ false
      → let o = hold_if P p mode (r, l) s in
        (o.0 ≡ acquire_answer s.table p mode r)
        × (o.1.table ≡ acquired_table s.table p mode o.0)
        × (o.1.store p ≡ (if calls_acquire s.table p then l else s.store p))
  hold_if_lem mode LockResult.acquired l h room =
      (rw (room, h) refl, rw h refl, rw (room, h, ==_refl p) refl)
  hold_if_lem mode _ l h room = (rw (room, h) refl, refl, rw (room, h, ==_refl p) refl)

  held_again_lem :
      (i : ℕ) (e : LocalLockInfo) (mode : LockMode) (a : LockResult × RwLockInfo P)
      → Found s.table p i e
      → 1 ≤ held s.table p
      → leb max_local_lock_num (length s.table) ≡ false
      → let o = held_again P s i mode e in
        (o.0 ≡ acquire_answer s.table p mode a.0)
        × (o.1.table ≡ acquired_table s.table p mode o.0)
        × (o.1.store p ≡ (if calls_acquire s.table p then a.1 else s.store p))
  held_again_lem i e mode a found pos room =
      let there = lt→ltb 0 (held s.table p) pos in
      elim (Bool-cases (mode_eq e.lock_mode mode)) [
        | inl same ↦ rw (room, there, found.mode, same) (refl, found.adjusted (λ n. n + 1), refl)
        | inr differ ↦ rw (room, there, found.mode, differ) (refl, refl, refl)
      ]

  -- For a well-formed table, and if the retries of AcquireRWLock return, AcquireRWLockLocal
  -- returns. Its result is a failure if the table is full, success or a dead lock by the mode
  -- that a lock is held in, and what AcquireRWLock returns for a lock that is not held. On
  -- success the table has one hold more, in the entry of the lock or in a new last one with
  -- the mode; otherwise it is as before. The process's lock is as AcquireRWLock leaves it if
  -- that was called, and untouched otherwise, like the other locks; the table is well-formed.
  pub acquire_local-Leaves :
      (fuel : ℕ) (mode : LockMode) (a : LockResult × RwLockInfo P)
      → acquire_rw_lock P fuel (s.store p) mode ≡ some a
      → (r : LockResult) × (t : Locks P) × (acquire_local P fuel s p mode ≡ some (r, t))
        × Leaves P s p (held s.table p + 1) (ltb 0 (held s.table p)) r t
        × (r ≡ acquire_answer s.table p mode a.0)
        × (t.table ≡ acquired_table s.table p mode r)
        × (t.store p ≡ (if calls_acquire s.table p then a.1 else s.store p))
  unfolding acquire_local
  acquire_local-Leaves fuel mode a e = elim (Bool-cases (leb max_local_lock_num (length s.table))) [
    | inl full ↦ (
      LockResult.failed,
      s,
      rw full,
      same_Leaves (held s.table p + 1) (ltb 0 (held s.table p)) LockResult.failed refl,
      rw full refl,
      refl,
      rw full refl,
    )
    | inr room ↦ elim (search_cases s.table p) [
      | inl (gone, zero_held) ↦
          let o = hold_if P p mode a s in
          let (answer, table, store) = hold_if_lem mode a.0 a.1 zero_held room in
          (
            o.0,
            o.1,
            rw (room, gone, e),
            rw zero_held (hold_if-Leaves mode a.0 a.1 zero_held),
            answer,
            table,
            store,
          )
      | inr (i, d, at, found) ↦
          let pos : 1 ≤ held s.table p =
            omega (arith, found.count, counted s.table v i d found.at_i) in
          let o = held_again P s i mode d in
          let (answer, table, store) = held_again_lem i d mode a found pos room in
          (
            o.0,
            o.1,
            rw (room, at, found.at_i),
            rw (lt→ltb 0 (held s.table p) pos) (held_again-Leaves i d mode found pos),
            answer,
            table,
            store,
          )
    ]
  ]

  abbrev dropped_one : ℕ → LocalLockInfo → Locks P
  dropped_one i e = record s { table = set s.table i (record e { lock_cnt = e.lock_cnt - 1 }) }
