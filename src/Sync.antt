-- ===== src/Sync.antt =====
-- indexer/src/sync.rs over storage/src/repositories/sync.rs: the progress of each chain, one run of
-- a chain, and the coordinator.
pub mod Errors
pub mod Progress
pub mod Chain
pub mod Runs
pub mod Start
pub mod History
pub mod Arrival
pub mod Coordinator
pub mod Reindex
mod Tests
