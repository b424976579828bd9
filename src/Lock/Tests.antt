-- ===== src/Lock/Tests.antt =====
-- The lock functions over a small model of the pthread lock, and the theorems there.
use toadb.Base.{
  ℕ, ◌+◌, ◌-◌, ◌*◌, ◌≡◌, refl, Bool, true, [], ◌∷◌, some, ltb, ◌==◌, ◌||◌, if◌then◌else◌, arith,
}
use toadb.Lock.Rwlock.{
  Pthread, RwLockInfo, LockMode, LockResult, ebusy, init_rw_lock, acquire_rw_lock, release_rw_lock,
}
use toadb.Lock.Rwlock.Modes.{writer_clears_mode}
use toadb.Lock.Spin.{
  spin_delay_max, outcome, first_free, spin_lock_aquire, spin_lock_aquire-outcome,
}
use toadb.Lock.Local.{Locks, acquire_local, initialize_local_lock}
use toadb.Lock.Local.Table.{IsTable}
use toadb.Lock.Local.Nesting.{
  Leaves, acquire_answer, acquired_table, calls_acquire, acquire_local-Leaves,
}
use toadb.Lock.Local.Leak.{initialize_local_lock_leaks}

-- A lock that another thread holds at the first two tries, and takes between test and swap of the third.
abbrev busy_thrice : ℕ → ℕ × ℕ
busy_thrice n = if ltb n 2 then (1, 1) else if n == 2 then (0, 1) else (0, 0)

spin_lock_aquire-outcome_example :
    spin_lock_aquire 100020001 busy_thrice
    ≡ some (outcome (first_free busy_thrice 0 ((spin_delay_max + 1) * (spin_delay_max + 1))))
spin_lock_aquire-outcome_example = spin_lock_aquire-outcome 100020001 busy_thrice (omega arith)

-- The fourth try takes the lock; a limit of a few tries stands for all of them.
spins : first_free busy_thrice 0 9 ≡ some 3
unfolding first_free
spins = refl

record Counts : Type 0 where
  readers : ℕ
  writers : ℕ

abbrev refuse : Bool → Counts → Counts → ℕ × Counts
refuse busy c c' = if busy then (ebusy, c) else (0, c')

-- A lock that answers EBUSY where the real one would block.
abbrev counting : Pthread
counting = record {
  Rwlock = Counts;
  fresh = record { readers = 0; writers = 0 };
  rdlock = λ c. refuse (ltb 0 c.writers) c (record c { readers = c.readers + 1 });
  wrlock = λ c. refuse (ltb 0 c.writers || ltb 0 c.readers) c (record c { writers = 1 });
  tryrdlock = λ c. refuse (ltb 0 c.writers) c (record c { readers = c.readers + 1 });
  trywrlock = λ c. refuse (ltb 0 c.writers || ltb 0 c.readers) c (record c { writers = 1 });
  unlock = λ c. (
    0,
    if ltb 0 c.writers then record c { writers = 0 } else record c { readers = c.readers - 1 },
  );
}

abbrev lock_with : ℕ → ℕ → LockMode → RwLockInfo counting
lock_with readers writers mode = record {
  rwlock = record { readers = readers; writers = writers };
  lock_mode = mode;
  branch = 0;
  rlock_cnt = readers;
}

init_rw_lock-free : init_rw_lock counting 0 ≡ lock_with 0 0 LockMode.null
unfolding init_rw_lock
init_rw_lock-free = refl

writer_clears_mode_example :
    (l : RwLockInfo counting) × (acquire_rw_lock counting 1
        (lock_with 0 0 LockMode.null)
        LockMode.write
      ≡ some (LockResult.acquired, l))
    × (l.lock_mode ≡ LockMode.write)
    × ((release_rw_lock counting l).1.lock_mode ≡ LockMode.null)
    × ((release_rw_lock counting l).1.rlock_cnt ≡ 0)
writer_clears_mode_example = writer_clears_mode counting (lock_with 0 0 LockMode.null) 0 refl

-- The thread reads lock 7 twice and writes lock 9.
abbrev holding : Locks counting
holding = record {
  store = λ q. if q == 7 then lock_with 1 0 LockMode.read else lock_with 0 1 LockMode.write;
  table =
      record { lock = some 7; lock_mode = LockMode.read; lock_cnt = 2 }
      ∷ record { lock = some 9; lock_mode = LockMode.write; lock_cnt = 1 }
      ∷ [];
}

holding-IsTable : IsTable holding.table
holding-IsTable = ((7, refl, refl), omega arith, ((9, refl, refl), omega arith, tt))

abbrev twice_read : RwLockInfo counting
twice_read = lock_with 2 0 LockMode.read

-- A mode that differs is a dead lock, and a lock that is not held is asked for.
answers :
    (acquire_answer holding.table 7 LockMode.write LockResult.acquired ≡ LockResult.dead_lock)
    × (acquire_answer holding.table 8 LockMode.write LockResult.failed ≡ LockResult.failed)
answers = (refl, refl)

acquire_local-Leaves_example :
    (r : LockResult) × (t : Locks counting) × (acquire_local counting 1 holding 7 LockMode.read
      ≡ some (r, t))
    × Leaves counting holding 7 3 true r t
    × (r ≡ acquire_answer holding.table 7 LockMode.read LockResult.acquired)
    × (t.table ≡ acquired_table holding.table 7 LockMode.read r)
    × (t.store 7
        ≡ (if calls_acquire holding.table 7 then twice_read else lock_with 1 0 LockMode.read))
unfolding acquire_rw_lock
acquire_local-Leaves_example =
    acquire_local-Leaves counting holding 7 holding-IsTable 1 LockMode.read
      (LockResult.acquired, twice_read) refl

abbrev two_writes : ℕ → RwLockInfo counting
two_writes q = lock_with 0 1 LockMode.write

initialize_local_lock_leaks_example :
    (t : Locks counting) × (initialize_local_lock counting (record {
      store = two_writes;
      table =
          record { lock = some 7; lock_mode = LockMode.write; lock_cnt = 1 }
          ∷ record { lock = some 9; lock_mode = LockMode.write; lock_cnt = 1 }
          ∷ [];
    })
      ≡ some t)
    × (t.store 7 ≡ (release_rw_lock counting (two_writes 7)).1)
    × (t.store 9 ≡ two_writes 9)
    × (t.table ≡ [])
unfolding release_rw_lock
initialize_local_lock_leaks_example =
    initialize_local_lock_leaks counting two_writes 7 LockMode.write refl 9 LockMode.write
      (omega arith)
