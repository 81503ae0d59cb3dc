-- ===== src/Daemon.antt =====
-- The daemon (cmd/openqiarad): `Siren` for siren.go, `Controller` for siren_controller.go, `Forward` for main.go.
pub mod Siren
pub mod SirenWatch
pub mod Controller
pub mod Mirror
pub mod Forward
pub mod Intrusion
pub mod AlarmoMode
mod ForwardTests
mod Tests
