-- ===== src/Auth.antt =====
-- The package auth and its children: accounts, one-time passwords, tokens and sessions.
pub mod Errors
pub mod Models
pub mod Ports
pub mod Mobile
pub mod Cached
pub mod Dao
pub mod Provider
pub mod Token
pub mod Service
pub mod Handler
