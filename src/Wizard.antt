-- ===== src/Wizard.antt =====
-- The cluster wizard, frontend/src/components/wizard.
pub mod Review
pub mod ConnectionStep
pub mod State
pub mod Steps
pub mod Flow
pub mod Tests
