-- ===== src/Server/Responses.antt =====
-- What the handlers answer: the response types of server/src/handlers.rs.
use aptos_setup_ceremony.Base.{ℕ, String, Option, List}
use aptos_setup_ceremony.Server.Error.{KickedError}
use aptos_setup_ceremony.Server.Store.Row.{CurrentContributionStep, ContributorRow}

pub data StatusResponse : Type 0 where
  didnt_join : StatusResponse
  kicked : KickedError → StatusResponse
  waiting_in_queue : ℕ → StatusResponse
  ready_to_download_previous : Option String → StatusResponse
  waiting_for_contribution_with_previous : Option String → StatusResponse
  ready_for_upload : List String → StatusResponse
  verifying : StatusResponse
  finished : StatusResponse

pub record ReportResponse : Type 0 where
  pub status : Option CurrentContributionStep
  pub contributors : List (ℕ × ContributorRow)

-- The value that `handle` hands to `json!`.
pub data Response : Type 0 where
  json_ok : Response
  json_status : StatusResponse → Response
  json_report : ReportResponse → Response
  json_downloads : List (ContributorRow × String) → Response
  json_url : String → Response
  json_urls : List String → Response
