-- ===== src/Fbxbus.antt =====
-- The camera's IPC bus, internal/fbxbus: `Wire` is the headers of wire.go; `Fields` and `RoundTrip` prove.
pub mod Wire
pub mod Fields
pub mod RoundTrip
mod Tests
