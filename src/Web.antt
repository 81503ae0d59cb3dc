-- ===== src/Web.antt =====
-- The web server, internal/web/server.go: `Keypad` is the codes of the keypad, `Admin` the password and who is
-- let in; `Codes` and `Lock` prove.
pub mod Keypad
pub mod Codes
pub mod Admin
pub mod Lock
mod Tests
