-- ===== src/Memory.antt =====
-- cache/memory/stores.go: the stores that hold their entries in maps behind a mutex. A call is one
-- step: what it reads of the clock is its first argument. `token_key` and the mutexes are below.
pub mod Refresh
pub mod PendingSignup
pub mod OtpState
pub mod RateLimit
