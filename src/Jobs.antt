-- ===== src/Jobs.antt =====
-- jobs/: the service of job openings.
pub mod Dto
pub mod Service
pub mod Controller
pub mod Rights
pub mod Listing
mod Tests
