-- ===== src/Journal.antt =====
-- The journal of transactions: its entries, the manager, its format, and what is proved of them.
pub mod Entry
pub mod Manager
pub mod Wire
pub mod Calls
pub mod Checkpoints
pub mod Sequence
pub mod Integrity
mod Tests
