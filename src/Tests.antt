-- ===== src/Tests.antt =====
-- The theorems at concrete inputs.
pub mod Ceremony
pub mod Queue
pub mod Ternary
pub mod Contributions
pub mod Chain
pub mod Cloud
pub mod Bytes
pub mod Setup
pub mod Uploads
pub mod Polling
pub mod Turn
pub mod Keypairs
