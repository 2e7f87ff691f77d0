-- ===== src/Cluster/Keys.antt =====
-- src/db.rs and src/cluster/raft/state_machine.rs: which stream an access key leads to.
pub mod Defs
pub mod Tables
pub mod Changes
pub mod Commands
