-- ===== src/Transaction/Control/Workers.antt =====
-- Several workers that call the functions of transactionControl.c in turn, each in its own thread
-- with its own `myTransaction`. A call is one step: it writes only the caller's context, and
-- touches the ids by atomic operations.
mod Calls
mod Invariant
pub use Calls.*
pub use Invariant.*
