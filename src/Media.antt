-- ===== src/Media.antt =====
-- The packets of the media streams (internal/publisher) and the prebuffer of the recordings
-- (internal/hksv): `H264` for h264rtp.go.
pub mod H264
pub mod Fragments
pub mod Reassembly
pub mod Numbering
mod Tests
