-- ===== src/Media/Wire.antt =====
-- src/cluster/media/wire.rs: the frames of the media plane.
pub mod Bytes
pub mod Write
pub mod Read
pub mod Lengths
pub mod Parts
pub mod Took
pub mod RoundTrip
pub mod InitRoundTrip
pub mod Sync
pub mod Tests
