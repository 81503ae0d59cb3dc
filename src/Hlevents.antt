-- ===== src/Hlevents.antt =====
-- The detections of the camera, internal/hlevents: `Dispatcher` is dispatcher.go, `Expiry` and `Runs` prove that
-- they end.
pub mod Dispatcher
pub mod Expiry
pub mod Runs
mod Tests
