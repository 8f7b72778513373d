-- ===== src/Server/Dispatch.antt =====
-- `handle` of server/src/handlers.rs, and the way of a request to it: server/src/serve.rs.
use aptos_setup_ceremony.Base.{ℕ, not, if◌then◌else◌}
use aptos_setup_ceremony.Contributor.{Contributor}
use aptos_setup_ceremony.Messages.{Msg}
use aptos_setup_ceremony.Server.Authentication.{
  Request, Wire, from_request, verify_correctly_authenticated,
}
use aptos_setup_ceremony.Server.Config.{Config}
use aptos_setup_ceremony.Server.Error.{
  not_accepting, forbidden, StatusCode, AnyError, status_code, Outcome, ok, err, panic, fail,
}
use aptos_setup_ceremony.Server.Responses.{
  Response, json_ok, json_status, json_report, json_downloads, json_url, json_urls,
}
use aptos_setup_ceremony.Server.State.{FilesStore, State, Handler, ◌>>=◌, ◌>>◌, lift}
use aptos_setup_ceremony.Server.Handlers.{
  handle_join, handle_get_status, handle_update_download_progress, handle_update_compute_progress,
  handle_update_upload_progress, handle_register, handle_report, handle_download_all,
  handle_download_latest, handle_get_test_contribution_download_link,
  handle_get_test_contribution_upload_link,
}

-- What a request's handling reads of its surroundings: the clock, twice, and the contributor with
-- a random key that `test_upload_contributor` makes.
pub record Surroundings : Type 0 where
  pub now : ℕ
  pub later : ℕ
  pub test_contributor : Contributor

-- What hyper sends back.
pub data HttpResponse : Type 0 where
  success : Response → HttpResponse
  failure : StatusCode → AnyError → HttpResponse

module _ (F : FilesStore) (W : Wire) (config : Config) where
  open F use {St}

  unfoldable pub handle : Surroundings → Msg → Handler St Response
  handle e (Msg.join c download compute upload) =
      if not config.stopped
      then (do handle_join F c e.now download compute upload; lift (ok json_ok))
      else lift (fail not_accepting forbidden)
  handle e (Msg.get_status c) = do
    status ← handle_get_status F c e.now e.later
    lift (ok (json_status status))
  handle e (Msg.update_download_progress finished c) = do
    handle_update_download_progress F finished c e.now
    lift (ok json_ok)
  handle e (Msg.update_compute_progress finished c) = do
    handle_update_compute_progress F finished c e.now
    lift (ok json_ok)
  handle e (Msg.update_upload_progress finished c hash) = do
    handle_update_upload_progress F finished hash c e.now
    lift (ok json_ok)
  handle e (Msg.register c) = do handle_register F c e.now; lift (ok json_ok)
  handle e Msg.report = do report ← handle_report F; lift (ok (json_report report))
  handle e Msg.download_all = do urls ← handle_download_all F; lift (ok (json_downloads urls))
  handle e Msg.download_latest = do url ← handle_download_latest F; lift (ok (json_url url))
  handle e (Msg.get_test_contribution_download_link _) = do
    url ← handle_get_test_contribution_download_link F
    lift (ok (json_url url))
  handle e (Msg.get_test_contribution_upload_link _) = do
    urls ← handle_get_test_contribution_upload_link F e.test_contributor
    lift (ok (json_urls urls))

  unfoldable pub deserialize_authenticate_and_handle : Surroundings → Request → Handler St Response
  deserialize_authenticate_and_handle e request = do
    authenticated_msg ← lift (from_request W request)
    lift (verify_correctly_authenticated W authenticated_msg config)
    handle e authenticated_msg.inner

  -- `panic` is the only outcome that sends nothing.
  unfoldable pub request_handler :
      Surroundings → Request → State St → Outcome HttpResponse × State St
  unfolding deserialize_authenticate_and_handle
  request_handler e request s =
      let r = deserialize_authenticate_and_handle e request s in
      (
        elim r.0 [
          | ok value ↦ ok (success value)
          | err e' ↦ ok (failure (status_code e') e'.error)
          | panic ↦ panic
        ],
        r.1,
      )
