-- ===== src/WalletFeed.antt =====
-- shared/src/types.rs (the versioned event DTOs and the wallet feed) and api/src/feed.rs: the
-- ordered feed of untrusted observations that wallets read, and the hub that makes it durable.
pub mod Protocol
pub mod Event
pub mod RawEvent
pub mod RawSound
pub mod Envelope
pub mod Projection
pub mod Hub
mod RawTests
mod Tests
