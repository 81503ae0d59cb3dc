-- ===== src/Radio.antt =====
-- The gateway's side of the radio protocol (internal/radio): `Sensors` for sensors.go, `Engine` for
-- engine.go.
pub mod Types
pub mod Sensors
pub mod Dialogue
pub mod Engine
pub mod Replies
pub mod Ops
pub mod Keypad
pub mod Lost
pub mod Window
pub mod Life
mod Tests
