-- ===== src/Server/System/NoPanic.antt =====
-- No request, tick or verification panics: server/src/handlers.rs and server/src/serve.rs.
pub mod Handlers
use aptos_setup_ceremony.Base.{String, Bool, true, some, [], ◌∷◌, Option-cases}
use aptos_setup_ceremony.Contributor.{Contributor}
use aptos_setup_ceremony.Crypto.Attempt.{panicked}
use aptos_setup_ceremony.Messages.{Msg}
use aptos_setup_ceremony.Server.Config.{
  Config, ping_timeout, download_timeout, contribute_timeout, upload_timeout,
}
use aptos_setup_ceremony.Server.Authentication.Laws.{IsBroken}
use aptos_setup_ceremony.Server.Dispatch.{handle}
use aptos_setup_ceremony.Server.State.{on_files, State}
use aptos_setup_ceremony.Server.Store.Row.{
  update_timestamp, mark_started_download, contributor, kicked, ContributorRow, Table,
}
use aptos_setup_ceremony.Server.Store.Db.{
  get_most_recent_finished_contributor, register, get_finished_contributors, find_key, get_with_pos,
  kick_current,
}
use aptos_setup_ceremony.Server.Queue.{is_some}
use aptos_setup_ceremony.Server.Queue.Reads.{find_key-some}
use aptos_setup_ceremony.Server.Handlers.{
  handle_join, handle_get_status, handle_update_download_progress, handle_update_compute_progress,
  handle_update_upload_progress, handle_register, handle_tick, handle_report, handle_download_all,
  handle_download_latest, handle_get_test_contribution_download_link,
  handle_get_test_contribution_upload_link, check_correct_state, download_urls, previous_url,
}
use aptos_setup_ceremony.Server.System.{Event, request}
use aptos_setup_ceremony.Base.{List}

-- No request is broken off.
abbrev pub AllWhole : List Event → Type 0
AllWhole [] = Unit {0}
AllWhole (request e r ∷ es) = (¬ IsBroken r) × AllWhole es
AllWhole (_ ∷ es) = AllWhole es

abbrev IsWhole : Event → Type 0
IsWhole e = AllWhole (e ∷ [])
