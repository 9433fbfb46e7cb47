-- ===== src/Users.antt =====
-- users/: the service of accounts.
pub mod Service
pub mod Controller
pub mod Profile
pub mod Deletion
mod Tests
