-- ===== src/Client.antt =====
-- The contributor's program, client/src.
pub mod World
pub mod Contribute
pub mod Csv
