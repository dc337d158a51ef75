-- ===== src/Store.antt =====
-- storage/src/repositories/observations.rs over the tables and triggers of
-- storage/migrations/0003_observation_plane.sql and 0004_reconciliation_history.sql: the append-only
-- store of observations.
pub mod Schema
pub mod Repository
pub mod Rows
pub mod Append
pub mod Writes
pub mod Reachable
pub mod Order
pub mod Reads
pub mod Lineage
pub mod History
pub mod Hints
pub mod Listing
pub mod Entities
pub mod Isolation
pub mod Listable
pub mod Newest
pub mod Listed
pub mod Told
pub mod Ancestry
pub mod VisibleLineage
mod HintTests
pub mod Fixtures
mod Tests
