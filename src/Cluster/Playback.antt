-- ===== src/Cluster/Playback.antt =====
-- src/db.rs and src/cluster/raft/state_machine.rs: the play key that a stream advertises.
pub mod Rows
pub mod Viewers
pub mod Found
pub mod Commands
