-- ===== src/Cluster.antt =====
-- src/cluster: the commands of the replicated log and the state machine that applies them.
pub mod Command
pub mod StateMachine
pub mod Keys
pub mod Fencing
pub mod Progress
pub mod Identity
pub mod Playback
pub mod Tests
pub mod Security
pub mod LogStore
pub mod Health
