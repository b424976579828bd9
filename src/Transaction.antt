-- ===== src/Transaction.antt =====
-- sqlcore/transaction: transaction ids, the per-worker transaction state and tuple visibility.
pub mod Xtid
pub mod Control
pub mod Snapshot
pub mod Statements
mod Tests
