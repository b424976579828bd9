-- ===== src/Lock.antt =====
-- util/ipc/lock: spin locks, the reader-writer lock over the pthread library, and the table of the locks that a
-- thread holds.
pub mod Rwlock
pub mod Spin
pub mod Local
mod Tests
