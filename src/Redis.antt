-- ===== src/Redis.antt =====
-- cache/redis/: the stores that hold their entries in a Redis server.
pub mod Client
pub mod Keys
pub mod Refresh
pub mod PendingSignup
pub mod OtpState
pub mod UserCache
pub mod RateLimit
