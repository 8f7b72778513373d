-- ===== src/Server/Store.antt =====
-- The contributors database, server/src/store/contributors_db.
pub mod Row
pub mod OrderBy
pub mod Db
pub mod ContributionFiles
