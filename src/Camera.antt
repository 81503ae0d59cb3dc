-- ===== src/Camera.antt =====
-- The client of the radio (internal/camera/radio.go): `Registry` is the registry of the paired sensors in the
-- configuration, `Sensors` their live state, `Client` what the client publishes, `Reload` what the engine
-- serves and `Receive` what the client does with frames, with time and with commands.
pub mod Registry
pub mod Unique
pub mod Adopt
pub mod Pairings
pub mod Sensors
pub mod Client
pub mod Reload
pub mod Receive
pub mod Siren
pub mod Arming
pub mod Serving
pub mod Linked
pub mod Stranger
pub mod Keypads
pub mod Silence
pub mod Publish
mod ClientTests
mod Tests
