-- ===== src/Lock/Rwlock/Modes.antt =====
-- The mode and the number of readers that rwlock.c records beside the pthread lock.
use toadb.Base.{ℕ, suc, ◌+◌, ◌%◌, ◌^◌, ◌<◌, ◌≡◌, refl, some, arith}
use toadb.Lock.Rwlock.{
  Pthread, RwLockInfo, LockMode, LockResult, ebusy, acquire_rw_lock, try_acquire_rw_lock,
  release_rw_lock,
}

module _ (P : Pthread) (l : RwLockInfo P) where
  open P use {rdlock, tryrdlock, unlock}

  -- If the read lock is granted and the reader count does not overflow, acquiring and
  -- releasing in READ mode restores the count but leaves the recorded mode READ.
  reader_leaves_mode :
      (fuel : ℕ)
      → l.rlock_cnt + 1 < 2 ^ 32
      → (rdlock l.rwlock).0 ≡ 0
      → (l' : RwLockInfo P) × (acquire_rw_lock P (suc fuel) l LockMode.read
          ≡ some (LockResult.acquired, l'))
        × (l'.rlock_cnt ≡ l.rlock_cnt + 1)
        × ((release_rw_lock P l').1.rlock_cnt ≡ l.rlock_cnt)
        × ((release_rw_lock P l').1.lock_mode ≡ LockMode.read)
  unfolding acquire_rw_lock release_rw_lock
  reader_leaves_mode fuel small got = (
    record l {
      rwlock = (rdlock l.rwlock).1;
      lock_mode = LockMode.read;
      rlock_cnt = (l.rlock_cnt + 1) % 2 ^ 32;
    },
    ground arith,
    omega arith,
    ground arith,
    ground arith,
  )

  -- When a writer holds the lock, no reader is counted and the try is answered EBUSY,
  -- TryAcquireRWLock in READ mode fails but records mode READ and one reader, and the
  -- writer's release then takes that reader away and leaves the mode READ.
  busy_try_spoils_mode :
      l.lock_mode ≡ LockMode.write
      → l.rlock_cnt ≡ 0
      → (tryrdlock l.rwlock).0 ≡ ebusy
      → let (r, l') = try_acquire_rw_lock P l LockMode.read in
        (r ≡ LockResult.waiting)
        × (l'.lock_mode ≡ LockMode.read)
        × (l'.rlock_cnt ≡ 1)
        × ((release_rw_lock P l').1.lock_mode ≡ LockMode.read)
        × ((release_rw_lock P l').1.rlock_cnt ≡ 0)
  unfolding try_acquire_rw_lock release_rw_lock
  busy_try_spoils_mode w z busy = (ground arith, refl, ground arith, ground arith, ground arith)

  -- A writer that comes and goes leaves the mode cleared and the number of readers as it was.
  pub writer_clears_mode :
      (fuel : ℕ)
      → (P.wrlock l.rwlock).0 ≡ 0
      → (l' : RwLockInfo P) × (acquire_rw_lock P (suc fuel) l LockMode.write
          ≡ some (LockResult.acquired, l'))
        × (l'.lock_mode ≡ LockMode.write)
        × ((release_rw_lock P l').1.lock_mode ≡ LockMode.null)
        × ((release_rw_lock P l').1.rlock_cnt ≡ l.rlock_cnt)
  unfolding acquire_rw_lock release_rw_lock
  writer_clears_mode fuel got = (
    record l { rwlock = (P.wrlock l.rwlock).1; lock_mode = LockMode.write },
    ground arith,
    refl,
    refl,
    refl,
  )
