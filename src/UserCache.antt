-- ===== src/UserCache.antt =====
-- internal/usercache: users cached in Redis, and the wire protocol of Redis.
pub mod Resp
pub mod Text
pub mod Cache
pub mod Accounts
pub mod Redis
