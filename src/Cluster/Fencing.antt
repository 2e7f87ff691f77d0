-- ===== src/Cluster/Fencing.antt =====
-- src/db.rs and src/cluster/raft/state_machine.rs: the epochs that fence stream ownership.
pub mod Bounds
pub mod Answers
pub mod Log
