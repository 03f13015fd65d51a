-- ===== src/Metrics.antt =====
-- The metrics page, frontend/src/pages/MetricsPage.tsx: the time range that it asks for.
pub mod TimeInput
pub mod Picker
pub mod Format
pub mod Groups
pub mod Tests
