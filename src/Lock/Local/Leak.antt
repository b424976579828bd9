-- ===== src/Lock/Local/Leak.antt =====
-- `InitializeLocalLock`, by which a thread gives up the locks that it still holds.
use toadb.Base.{ℕ, ◌≡◌, ◌≢◌, refl, List, [], ◌∷◌, some, ◌==◌, if◌then◌else◌, arith, ==_refl}
use toadb.Lock.Rwlock.{Pthread, LockMode, LockResult, RwLockInfo, release_rw_lock}
use toadb.Lock.Local.{LocalLockInfo, Locks, initialize_local_lock, release_local}

module _ (P : Pthread) (store : ℕ → RwLockInfo P) (p : ℕ) (mode : LockMode)
    (unlocks : (release_rw_lock P (store p)).0 ≡ LockResult.acquired) where
  abbrev pub entry : ℕ → LockMode → LocalLockInfo
  entry q m = record { lock = some q; lock_mode = m; lock_cnt = 1 }

  abbrev unlocked : ℕ → RwLockInfo P
  unlocked q = if p == q then (release_rw_lock P (store p)).1 else store q

  release_head :
      (rest : List LocalLockInfo)
      → release_local P (record { store = store; table = entry p mode ∷ rest }) p
        ≡ some (LockResult.acquired, record { store = unlocked; table = rest })
  unfolding release_local
  release_head rest =
      let pair : release_rw_lock P (store p)
          ≡ (LockResult.acquired, (release_rw_lock P (store p)).1) =
        ground arith in
      ground (arith, pair, ==_refl p)

  -- A lock that is held alone and once is released, and the table is empty afterwards.
  pub initialize_local_lock-one :
      (t : Locks P) × (initialize_local_lock P (record { store = store; table = entry p mode ∷ [] })
        ≡ some t)
      × (t.store p ≡ (release_rw_lock P (store p)).1)
      × (t.table ≡ [])
  unfolding initialize_local_lock
  initialize_local_lock-one =
      (record { store = unlocked; table = [] }, rw (release_head []), rw (==_refl p), refl)

  -- If a thread holds two different locks once each and the first can be unlocked,
  -- InitializeLocalLock returns with an empty table, the first lock released, and the second
  -- lock exactly as it was before.
  pub initialize_local_lock_leaks :
      (q : ℕ) (mode' : LockMode)
      → p ≢ q
      → (t : Locks P) × (initialize_local_lock P
            (record { store = store; table = entry p mode ∷ entry q mode' ∷ [] })
          ≡ some t)
        × (t.store p ≡ (release_rw_lock P (store p)).1)
        × (t.store q ≡ store q)
        × (t.table ≡ [])
  unfolding initialize_local_lock
  initialize_local_lock_leaks q mode' h = (
    record { store = unlocked; table = [] },
    rw (release_head (entry q mode' ∷ [])),
    rw (==_refl p),
    ground arith,
    refl,
  )
