-- ===== src/Contributor.antt =====
-- The contributor of common/src/contribution.rs. A verifying key is its 32 bytes, read as a number.
use aptos_setup_ceremony.Base.{ℕ, String}

pub record Contributor : Type 0 where
  pub name : String
  pub email : String
  pub verifying_key : ℕ
