-- ===== src/Alarm.antt =====
-- The standalone alarm and the driver of its siren (internal/alarm): engine.go in `Engine` and
-- `Life`, siren.go in `SirenDriver`.
pub mod Types
pub mod Engine
pub mod Life
pub mod Invariant
pub mod Forward
pub mod Timers
pub mod Delays
mod Tests
mod SirenTests
pub mod SirenRate
pub mod SirenWant
pub mod SirenDriver
pub mod Persist
pub mod Watch
pub mod Orders
