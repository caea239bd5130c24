-- ===== src/Tests.antt =====
-- The theorems of the development, applied to concrete data.
pub mod Services
pub mod Rights
pub mod Values
pub mod Queries
pub mod Logs
pub mod Metrics
