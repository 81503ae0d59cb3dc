-- ===== src/Hksv.antt =====
-- The formats of HomeKit Secure Video (internal/hksv): `Tlv` for tlv.go, `Prebuffer` for
-- prebuffer.go, `OpackValue` and `Opack` for opack.go.
pub mod Tlv
pub mod TlvChunks
pub mod TlvRoundTrip
pub mod Prebuffer
pub mod OpackValue
pub mod Opack
pub mod OpackNumbers
pub mod OpackShape
pub mod OpackSteps
pub mod OpackRoundTrip
pub mod PrebufferTrim
pub mod PrebufferLife
mod OpackTests
mod PrebufferTests
mod Tests
