-- ===== src/Media/Subscription.antt =====
-- src/cluster/media/subscription.rs: who is subscribed to a stream, counted in both directions.
pub mod Inbound
pub mod Refs
pub mod Outbound
mod Owners
mod Owned
mod Unwired
pub mod Promises
mod Tests
