-- ===== src/Connector.antt =====
-- indexer/src/connector.rs: the source-neutral connector contract and the gate that authenticates
-- the exact bytes first and then normalizes them.
pub mod Contract
pub mod Checks
pub mod Gate
pub mod Sound
pub mod Gated
mod Tests
