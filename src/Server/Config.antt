-- ===== src/Server/Config.antt =====
-- server/src/config.rs. The `_secs` fields are i64 numbers of seconds.
use aptos_setup_ceremony.Base.{ℕ, ◌+◌, String, Bool, leb, if◌then◌else◌, ◌≡◌, true}
use aptos_setup_ceremony.Base.Int.{ℤ, scale_ℤ, pos_part, neg_part}
use aptos_setup_ceremony.Server.Error.{Outcome, ok, panic}

pub record Config : Type 0 where
  pub db_path : String
  pub bucket_id : String
  pub gcp_project_id : String
  pub stopped : Bool
  pub admin_verifying_key : ℕ
  pub ping_timeout_secs : ℤ
  pub download_timeout_secs : ℤ
  pub contribute_timeout_secs : ℤ
  pub upload_timeout_secs : ℤ
  pub port : ℕ

-- Whether a number of seconds is a `TimeDelta`: chrono bounds it by `i64::MAX` milliseconds.
abbrev pub fits : ℤ → Bool
fits s = leb (pos_part s + neg_part s) 9_223_372_036_854_775

-- `TimeDelta::seconds`, in nanoseconds, which panics out of bounds.
abbrev pub seconds : ℤ → Outcome ℤ
seconds s = if fits s then ok (scale_ℤ s 1_000_000_000) else panic

unfoldable pub ping_timeout : Config → Outcome ℤ
ping_timeout c = seconds c.ping_timeout_secs

unfoldable pub download_timeout : Config → Outcome ℤ
download_timeout c = seconds c.download_timeout_secs

unfoldable pub contribute_timeout : Config → Outcome ℤ
contribute_timeout c = seconds c.contribute_timeout_secs

unfoldable pub upload_timeout : Config → Outcome ℤ
upload_timeout c = seconds c.upload_timeout_secs

-- The four limits of the configuration are durations.
pub record IsBounded (config : Config) : Type 0 where
  pub ping_fits : fits config.ping_timeout_secs ≡ true
  pub download_fits : fits config.download_timeout_secs ≡ true
  pub contribute_fits : fits config.contribute_timeout_secs ≡ true
  pub upload_fits : fits config.upload_timeout_secs ≡ true
