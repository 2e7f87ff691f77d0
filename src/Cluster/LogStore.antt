-- ===== src/Cluster/LogStore.antt =====
-- src/cluster/raft/log_store.rs: the Raft log, the vote and the committed position in SQLite.
pub mod Store
mod Rows
mod Log
mod Answered
mod Reads
mod Votes
mod Tests
