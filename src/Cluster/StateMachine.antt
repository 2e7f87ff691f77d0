-- ===== src/Cluster/StateMachine.antt =====
-- src/cluster/raft/state_machine.rs: the commands of the log applied to the tables.
pub mod Handlers
pub mod Seed
pub mod Apply
pub mod Replies
pub mod Stable
pub mod Batch
