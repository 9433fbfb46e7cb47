-- ===== src/Applications.antt =====
-- applications/applications.service.ts: the services' methods and what holds of them.
pub mod Dto
pub mod Service
pub mod Controller
pub mod Submission
pub mod Create
pub mod Refusals
pub mod Access
pub mod Review
pub mod Withdraw
pub mod Listing
pub mod Upload
pub mod Tests
