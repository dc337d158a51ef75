-- ===== src/Observation.antt =====
-- shared/src/observation.rs: the source-neutral observation plane. The records, the validation
-- that every observation passes on its way in, and what a validated observation satisfies.
pub mod Records
pub mod Validate
pub mod Parts
pub mod Sound
pub mod Profile
mod Tests
