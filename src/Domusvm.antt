-- ===== src/Domusvm.antt =====
-- The VM writes that install a sensor's bytecode (internal/domusvm): `Ops` for opcode.go and
-- frame.go, `Init` for coordinator.go and bytecode.go.
pub mod Ops
pub mod Split
pub mod Init
pub mod Install
mod Tests
