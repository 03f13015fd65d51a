-- ===== src/Api.antt =====
-- frontend/src/lib/api.ts: the types of the requests and the client that sends them.
pub mod Errors
pub mod Query
pub mod Encode
pub mod Clusters
pub mod Messages
pub mod Auth
pub mod Bodies
pub mod Request
pub mod Routes
pub mod Tests
