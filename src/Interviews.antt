-- ===== src/Interviews.antt =====
-- interviews/: the service of interviews.
pub mod Service
pub mod Controller
pub mod Schedule
mod Tests
