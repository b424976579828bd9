-- ===== src/Lock/Local.antt =====
-- util/ipc/lock/rwlock/locallock.c: the thread-local table of the locks that a thread holds, which
-- makes the locks reentrant. The array's first `localRWlockUsedPos` entries are the list `table`.
pub mod Table
pub mod Nesting
pub mod Leak
use toadb.Base.{
  ℕ, zero, suc, ◌+◌, ◌-◌, Bool, true, false, List, [], ◌∷◌, ◌++◌, Option, none, some, ltb, leb,
  ◌==◌, if◌then◌else◌, ◌>>=◌, get_elem?, set, length,
}
use toadb.Lock.Rwlock.{
  Pthread, RwLockInfo, LockMode, LockResult, mode_eq, acquire_rw_lock, try_acquire_rw_lock,
  release_rw_lock,
}

abbrev pub max_local_lock_num : ℕ
max_local_lock_num = 8

-- A lock is known by its address; `none` is NULL.
pub record LocalLockInfo : Type 0 where
  pub lock : Option ℕ
  pub lock_mode : LockMode
  pub lock_cnt : ℕ

abbrev pub is_lock : Option ℕ → ℕ → Bool
is_lock none p = false
is_lock (some q) p = p == q

-- The entry's index, or `none` for -1.
pub search_local_lock_table : List LocalLockInfo → ℕ → Option ℕ
search_local_lock_table [] p = none
search_local_lock_table (e ∷ table) p =
    if is_lock e.lock p then some 0 else (do i ← search_local_lock_table table p; some (suc i))

pub remove_local_lock : List LocalLockInfo → ℕ → List LocalLockInfo
remove_local_lock [] i = []
remove_local_lock (e ∷ table) zero = table
remove_local_lock (e ∷ table) (suc i) = e ∷ remove_local_lock table i

module _ (P : Pthread) where
  -- The locks of the process, and the calling thread's table.
  pub record Locks : Type 0 where
    pub store : ℕ → RwLockInfo P
    pub table : List LocalLockInfo

  abbrev pub put : ℕ → RwLockInfo P → Locks → Locks
  put p l s = record s { store = λ q. if p == q then l else s.store q }

  -- The lines on a lock that the thread has already; the count of holds stays below 2 ^ 31.
  abbrev pub held_again : Locks → ℕ → LockMode → LocalLockInfo → LockResult × Locks
  held_again s i mode e =
      if mode_eq e.lock_mode mode
      then (
        LockResult.acquired,
        record s { table = set s.table i (record e { lock_cnt = e.lock_cnt + 1 }) },
      )
      else (LockResult.dead_lock, s)

  abbrev pub hold : ℕ → LockMode → Locks → Locks
  hold p mode s = record s {
    table = s.table ++ record { lock = some p; lock_mode = mode; lock_cnt = 1 } ∷ [];
  }

  abbrev pub hold_if : ℕ → LockMode → LockResult × RwLockInfo P → Locks → LockResult × Locks
  hold_if p mode (LockResult.acquired, l) s = (LockResult.acquired, hold p mode (put p l s))
  hold_if p mode (r, l) s = (r, put p l s)

  -- `none`: the retries of `AcquireRWLock` have used up the fuel.
  unfoldable pub acquire_local : ℕ → Locks → ℕ → LockMode → Option (LockResult × Locks)
  unfolding search_local_lock_table
  acquire_local fuel s p mode =
      if leb max_local_lock_num (length s.table)
      then some (LockResult.failed, s)
      else elim (search_local_lock_table s.table p) [
        | some i ↦ do e ← get_elem? s.table i; some (held_again s i mode e)
        | none ↦ do r ← acquire_rw_lock P fuel (s.store p) mode; some (hold_if p mode r s)
      ]

  unfoldable pub try_acquire_local : Locks → ℕ → LockMode → Option (LockResult × Locks)
  unfolding search_local_lock_table
  try_acquire_local s p mode =
      if leb max_local_lock_num (length s.table)
      then some (LockResult.failed, s)
      else elim (search_local_lock_table s.table p) [
        | some i ↦ do e ← get_elem? s.table i; some (held_again s i mode e)
        | none ↦ some (hold_if p mode (try_acquire_rw_lock P (s.store p) mode) s)
      ]

  abbrev pub drop_if : ℕ → Option ℕ → LockResult × RwLockInfo P → Locks → LockResult × Locks
  drop_if p (some i) (LockResult.acquired, l) s =
      (LockResult.acquired, record (put p l s) { table = remove_local_lock s.table i })
  drop_if p found (r, l) s = (r, put p l s)

  -- `acquired` stands for the return value 0. A lock that is not in the table is released as well.
  unfoldable pub release_local : Locks → ℕ → Option (LockResult × Locks)
  unfolding search_local_lock_table remove_local_lock
  release_local s p =
      if length s.table == 0
      then some (LockResult.failed, s)
      else (let found = search_local_lock_table s.table p in
          let unlocked = drop_if p found (release_rw_lock P (s.store p)) s in
          elim found [
            | none ↦ some unlocked
            | some i ↦ do
              e ← get_elem? s.table i
              if ltb 1 e.lock_cnt
                  then some (
                    LockResult.acquired,
                    record s { table = set s.table i (record e { lock_cnt = e.lock_cnt - 1 }) },
                  )
                  else some unlocked
          ])

  abbrev pub cleared : LocalLockInfo
  cleared = record { lock = none; lock_mode = LockMode.null; lock_cnt = 0 }

  -- The loop of `InitializeLocalLock`, from position `pos` on: a lock at `pos` is released, and then
  -- the entry that stands at `pos` is cleared. `localRWlockUsedPos` is read in each round.
  unfoldable pub init_loop : ℕ → Locks → ℕ → Option Locks
  unfolding release_local
  init_loop zero s pos = none
  init_loop (suc fuel) s pos =
      let next = λ (t : Locks). init_loop fuel t (pos + 1) in
      if ltb pos (length s.table)
      then (do
        e ← get_elem? s.table pos
        elim e.lock [
          | none ↦ next s
          | some p ↦ do
            (r, t) ← release_local s p
            next (record t { table = set t.table pos cleared })
        ])
      else some s

  unfoldable pub initialize_local_lock : Locks → Option Locks
  unfolding init_loop
  initialize_local_lock s = do
    t ← init_loop (length s.table + 1) s 0
    some (record t { table = [] })
