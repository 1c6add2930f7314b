-- ===== src/Redis.antt =====
-- internal/store/redis/store.go: the store that keeps its sessions in Redis.
pub mod Server
pub mod Codec
pub mod Stored
pub mod Scripts
pub mod Operations
pub mod Rows
pub mod Changes
pub mod Agreement
pub mod Calls
pub mod Granting
pub mod Claims
pub mod Closes
pub mod Creation
pub mod Replays
pub mod Refinement
pub mod Faults
pub mod Outcomes
pub mod Explained
