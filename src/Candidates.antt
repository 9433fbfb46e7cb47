-- ===== src/Candidates.antt =====
-- candidates/: the service of candidates.
pub mod Service
pub mod Controller
pub mod Removal
mod Tests
