-- ===== src/Auth.antt =====
-- auth/: signing up, logging in, tokens, the lockout and the guards.
pub mod Redis
pub mod Service
pub mod Guards
pub mod Lockout
pub mod Login
pub mod Rotation
pub mod Controller
pub mod Session
pub mod Memory
mod Tests
