-- ===== src/Lock/Rwlock.antt =====
-- util/ipc/lock/rwlock/rwlock.c: a pthread lock with the mode and the number of readers that the
-- code records beside it.
pub mod Modes
use toadb.Base.{
  ℕ, zero, suc, ◌+◌, ◌-◌, ◌%◌, ◌^◌, Bool, true, false, Option, none, some, ◌==◌, if◌then◌else◌,
}

-- The pthread library: its lock, and its calls, each with its return code and the lock afterwards.
pub record Pthread : Type 1 where
  pub Rwlock : Type 0
  pub fresh : Rwlock
  pub rdlock : Rwlock → ℕ × Rwlock
  pub wrlock : Rwlock → ℕ × Rwlock
  pub tryrdlock : Rwlock → ℕ × Rwlock
  pub trywrlock : Rwlock → ℕ × Rwlock
  pub unlock : Rwlock → ℕ × Rwlock

pub data LockMode : Type 0 where
  null read write : LockMode

abbrev pub mode_eq : LockMode → LockMode → Bool
mode_eq LockMode.null LockMode.null = true
mode_eq LockMode.read LockMode.read = true
mode_eq LockMode.write LockMode.write = true
mode_eq _ _ = false

-- Codes of errno.h.
abbrev pub eagain : ℕ
eagain = 11

abbrev pub ebusy : ℕ
ebusy = 16

-- The return values: acquired, to wait for (a busy lock), -1, and -2 for a dead lock.
pub data LockResult : Type 0 where
  acquired waiting failed dead_lock : LockResult

module _ (P : Pthread) where
  open P use {Rwlock, fresh, rdlock, wrlock, tryrdlock, trywrlock, unlock}

  pub record RwLockInfo : Type 0 where
    pub rwlock : Rwlock
    pub lock_mode : LockMode
    pub branch : ℕ
    pub rlock_cnt : ℕ

  unfoldable pub init_rw_lock : ℕ → RwLockInfo
  init_rw_lock branch = record {
    rwlock = fresh;
    lock_mode = LockMode.null;
    branch = branch;
    rlock_cnt = 0;
  }

  -- The lines after the pthread call: the mode, and one reader more.
  abbrev pub note_mode : LockMode → RwLockInfo → RwLockInfo
  note_mode LockMode.read l = record l {
    lock_mode = LockMode.read;
    rlock_cnt = (l.rlock_cnt + 1) % 2 ^ 32;
  }
  note_mode mode l = record l { lock_mode = mode }

  abbrev pub try_result : ℕ → LockResult
  try_result ret =
      if ret == 0
      then LockResult.acquired
      else if ret == ebusy
      then LockResult.waiting
      else LockResult.failed

  -- The mode and the readers are recorded whatever the pthread call returned.
  abbrev pub try_noted : LockMode → RwLockInfo → ℕ × Rwlock → LockResult × RwLockInfo
  try_noted mode l (ret, rw) = (try_result ret, note_mode mode (record l { rwlock = rw }))

  unfoldable pub try_acquire_rw_lock : RwLockInfo → LockMode → LockResult × RwLockInfo
  try_acquire_rw_lock l LockMode.read = try_noted LockMode.read l (tryrdlock l.rwlock)
  try_acquire_rw_lock l LockMode.write = try_noted LockMode.write l (trywrlock l.rwlock)
  try_acquire_rw_lock l LockMode.null = (LockResult.failed, l)

  -- The retry loop of `AcquireRWLock` around one pthread call: `none` means that the fuel ran out.
  unfoldable pub lock_loop : (Rwlock → ℕ × Rwlock) → ℕ → Rwlock → Option (ℕ × Rwlock)
  lock_loop call zero rw = none
  lock_loop call (suc fuel) rw =
      let (ret, rw') = call rw in
      let again = lock_loop call fuel rw' in if ret == eagain then again else some (ret, rw')

  abbrev pub acquired_with :
      LockMode → RwLockInfo → Option (ℕ × Rwlock) → Option (LockResult × RwLockInfo)
  acquired_with mode l none = none
  acquired_with mode l (some (ret, rw)) =
      if ret == 0
      then some (LockResult.acquired, note_mode mode (record l { rwlock = rw }))
      else some (LockResult.failed, record l { rwlock = rw })

  unfoldable pub acquire_rw_lock : ℕ → RwLockInfo → LockMode → Option (LockResult × RwLockInfo)
  unfolding lock_loop
  acquire_rw_lock fuel l LockMode.read =
      acquired_with LockMode.read l (lock_loop rdlock fuel l.rwlock)
  acquire_rw_lock fuel l LockMode.write =
      acquired_with LockMode.write l (lock_loop wrlock fuel l.rwlock)
  acquire_rw_lock fuel l LockMode.null = some (LockResult.failed, l)

  -- `atomic_fetch_sub` returns the count before the subtraction.
  abbrev pub forget_mode : LockMode → RwLockInfo → RwLockInfo
  forget_mode LockMode.write l = record l { lock_mode = LockMode.null }
  forget_mode mode l = record l {
    lock_mode = if l.rlock_cnt == 0 then LockMode.null else mode;
    rlock_cnt = (l.rlock_cnt + 2 ^ 32 - 1) % 2 ^ 32;
  }

  abbrev pub release_result : ℕ → LockResult
  release_result ret = if ret == 0 then LockResult.acquired else LockResult.failed

  -- `acquired` stands for the return value 0. The requested mode is only compared for a log line.
  unfoldable pub release_rw_lock : RwLockInfo → LockResult × RwLockInfo
  release_rw_lock l =
      let (ret, rw) = unlock l.rwlock in
      (release_result ret, record (forget_mode l.lock_mode l) { rwlock = rw })
