-- ===== src/Db.antt =====
-- src/db.rs: the SQLite tables that the cluster replicates, and the calls that read and write them.
pub mod Tables
pub mod Streams
pub mod Viewers
pub mod Owners
