-- ===== src/Server.antt =====
-- The ceremony server, server/src.
pub mod Error
pub mod Store
pub mod Config
pub mod State
pub mod Responses
pub mod Handlers
pub mod Queue
pub mod System
pub mod Tasks
pub mod VerificationJob
pub mod Authentication
pub mod Dispatch
