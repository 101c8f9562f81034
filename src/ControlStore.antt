-- ===== src/ControlStore.antt =====
-- packages/control-store: the store of candidate transactions, their attestations, the validators'
-- heartbeats and cutoffs, the replay order, checkpoints and the log of changes.
pub mod Types
pub mod Result
pub mod State
pub mod Insert
pub mod Same
pub mod Candidates
pub mod Transitions
pub mod Heads
pub mod Watermark
pub mod Settlement
pub mod Restore
pub mod Order
pub mod Log
pub mod Queries
mod Tests
pub mod Commands
