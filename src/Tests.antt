-- ===== src/Tests.antt =====
-- The theorems at concrete inputs.
mod Samples
mod MemoryTests
mod ManagerTests
mod ConnectedTests
mod WebSocketTests
mod GrpcTests
mod RuntimeTests
mod PlainRedis
mod RedisTests
mod StartTests
