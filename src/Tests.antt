-- ===== src/Tests.antt =====
-- The theorems at concrete messages, rows and surroundings.
pub mod Samples
pub mod Channel
pub mod Store
pub mod Projection
pub mod Inbox
pub mod Worker
pub mod Email
pub mod MemoryCache
mod RedisServer
pub mod Operations
pub mod UserCache
pub mod Accounts
