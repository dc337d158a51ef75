-- ===== src/Piteka.antt =====
-- indexer/src/piteka_feed.rs: the connector for Piteka's signed feed of evidence exports.
pub mod Export
pub mod Manifest
pub mod Externals
pub mod Feed
pub mod Fixtures
mod Tests
mod CorrectionTests
