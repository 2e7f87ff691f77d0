-- ===== src/Cluster/Security.antt =====
-- src/cluster/security.rs: what keeps a peer out that does not know the secret, and the memory of
-- the node within bounds.
pub mod Failures
mod Recorded
mod Limited
mod Exact
pub mod Secrets
pub mod Budget
mod Tests
