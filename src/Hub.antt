-- ===== src/Hub.antt =====
-- internal/hub and internal/device: what a hub does with the actions for its devices.
pub mod Nonce
pub mod Lru
pub mod Device
pub mod NonceCache
pub mod DeviceManager
pub mod Codec
pub mod Service
pub mod Outcomes
pub mod Answers
pub mod Resent
pub mod Workers
pub mod CacheView
pub mod CacheCleanup
pub mod Replay
pub mod Once
pub mod LruList
pub mod Bounds
pub mod Setup
mod ServiceTests
mod Tests
