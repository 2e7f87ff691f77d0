-- ===== src/Media/Queue.antt =====
-- src/cluster/media/live_queue.rs: the outbound queue of a media connection, which prefers fresh
-- media. `Defs` has the data, `Inner` the operations under the lock, `Ops` those of
-- `LiveMediaQueue`; the other children are proofs.
pub mod Defs
pub mod Inner
pub mod Ops
pub mod Books
pub mod Keeps
pub mod Purges
pub mod Room
pub mod Push
pub mod Outcome
pub mod Runs
mod Tests
