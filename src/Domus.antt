-- ===== src/Domus.antt =====
-- The pairing of a sensor (internal/domus): `VendorKeys` for vendorkeys.go, `Pairing` for pairing.go.
pub mod VendorKeys
pub mod Pairing
pub mod PairingLaws
pub mod PairingEnds
mod Tests
