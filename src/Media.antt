-- ===== src/Media.antt =====
-- The cluster media plane (src/cluster/media).
pub mod Protocol
pub mod Queue
pub mod Wire
pub mod Timeline
pub mod Cache
pub mod Ownership
pub mod Subscription
