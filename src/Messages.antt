-- ===== src/Messages.antt =====
-- The requests of common/src/messages.rs.
use aptos_setup_ceremony.Base.{ℕ, String, Bool, List}
use aptos_setup_ceremony.Contributor.{Contributor}

pub data Msg : Type 0 where
  report download_all download_latest : Msg
  register : Contributor → Msg
  join : Contributor → ℕ → ℕ → ℕ → Msg
  get_status : Contributor → Msg
  update_download_progress : Bool → Contributor → Msg
  update_compute_progress : Bool → Contributor → Msg
  update_upload_progress : Bool → Contributor → String → Msg
  get_test_contribution_download_link : Contributor → Msg
  get_test_contribution_upload_link : Contributor → Msg

-- A signature is its bytes.
pub record AuthenticatedMsg : Type 0 where
  pub inner : Msg
  pub signature : List ℕ
