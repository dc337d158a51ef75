-- ===== src/Rest.antt =====
-- api/src/rest/handlers.rs: what a request is answered, over the store and the access control.
pub mod Replies
pub mod Observations
pub mod Entities
pub mod Shown
mod Tests
