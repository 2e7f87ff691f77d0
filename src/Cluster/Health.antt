-- ===== src/Cluster/Health.antt =====
-- src/cluster/health.rs: what a node records of its peers from their heartbeats.
pub mod Tracker
mod Heard
mod Swept
mod Others
mod Silent
mod Tests
