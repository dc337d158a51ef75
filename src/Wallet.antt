-- ===== src/Wallet.antt =====
-- indexer/src/wallet_bridge.rs over storage/src/repositories/priority_addresses.rs: the addresses
-- that wallets register, and the cycles in which they are indexed.
pub mod Addresses
pub mod Bridge
pub mod Service
pub mod Groups
pub mod Calls
pub mod Cycles
pub mod Batches
pub mod Undated
pub mod Turns
pub mod Repeats
mod Tests
