-- ===== src/Websocket.antt =====
-- api/src/websocket.rs: the subscriptions of wallets to the events of an address. A channel of tokio
-- has a number, which stands for its sender; it is a queue that its receiver empties until it is
-- dropped. The JSON values are an argument.
pub mod Events
pub mod Manager
pub mod Connection
mod Removal
mod Sending
mod Entries
pub mod Delivery
pub mod Overlap
pub mod Subscribing
mod Tests
