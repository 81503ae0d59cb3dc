-- ===== src/Charmux.antt =====
-- The link to the radio's MCU (internal/charmux): the managed frames and their variable-length
-- integers, from managed.go.
pub mod Varint
pub mod Frame
pub mod RoundTrip
mod Tests
