-- ===== src/Manager.antt =====
-- internal/session/manager.go.
pub mod Config
pub mod Calls
pub mod Issue
pub mod Made
pub mod Roundtrip
pub mod Replays
