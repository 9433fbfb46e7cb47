-- ===== src/Analytics.antt =====
-- The statistics (api-gateway/src/analytics/).
pub mod Service
pub mod Controller
pub mod Laws
pub mod Overview
pub mod Pipeline
pub mod Trends
pub mod Memory
mod Tests
