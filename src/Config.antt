-- ===== src/Config.antt =====
-- The configuration (internal/config/config.go): `Types` for its data, `Store` for the store, `Settings` for the
-- settings with their defaults,
-- `Login` for the administrator's password and `Load` for the loading.
pub mod Types
pub mod Store
pub mod Settings
pub mod Login
pub mod Load
pub mod Migration
mod Tests
