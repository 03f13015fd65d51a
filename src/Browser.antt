-- ===== src/Browser.antt =====
-- The message browser, frontend/src/pages/TopicMessagesPage.tsx.
pub mod Filter
pub mod Browse
pub mod Produce
pub mod Page
pub mod Tests
