-- ===== src/Auth/Service.antt =====
-- auth/service/service.go: one module for each flow.
pub mod Base
pub mod Login
pub mod Session
pub mod Availability
pub mod Signup
pub mod LoginOtp
pub mod Google
pub mod Profile
