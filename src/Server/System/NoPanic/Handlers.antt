-- ===== src/Server/System/NoPanic/Handlers.antt =====
-- No handler panics over a table with the invariant: server/src/handlers.rs.
use aptos_setup_ceremony.Base.{
  ℕ, String, Bool, ◌≡◌, ◌≢◌, inl, inr, true, some, arith, [], ◌∷◌, Option-cases,
}
use aptos_setup_ceremony.Contributor.{Contributor}
use aptos_setup_ceremony.Crypto.Attempt.{panicked}
use aptos_setup_ceremony.Messages.{Msg}
use aptos_setup_ceremony.Server.Error.{panic}
use aptos_setup_ceremony.Server.Authentication.{Wire}
use aptos_setup_ceremony.Server.Config.{
  Config, IsBounded, ping_timeout, download_timeout, contribute_timeout, upload_timeout,
}
use aptos_setup_ceremony.Server.Dispatch.{Surroundings, handle}
use aptos_setup_ceremony.Server.State.{on_files, FilesStore, State}
use aptos_setup_ceremony.Server.Store.Row.{
  update_timestamp, mark_started_download, contributor, kicked, ContributorRow, Table,
}
use aptos_setup_ceremony.Server.Store.Db.{
  get_most_recent_finished_contributor, register, get_finished_contributors, find_key, get_with_pos,
  kick_current,
}
use aptos_setup_ceremony.Server.Queue.{Inv, is_some}
use aptos_setup_ceremony.Server.Queue.Reads.{find_key-some}
use aptos_setup_ceremony.Server.Handlers.{
  handle_join, handle_get_status, handle_update_download_progress, handle_update_compute_progress,
  handle_update_upload_progress, handle_register, handle_tick, handle_report, handle_download_all,
  handle_download_latest, handle_get_test_contribution_download_link,
  handle_get_test_contribution_upload_link, check_correct_state, download_urls, previous_url,
}
use aptos_setup_ceremony.Base.{Option}

-- The files store returns results and errors, and does not panic.
pub record Total (F : FilesStore) : Type 0 where
  pub url : (c : Contributor) (s : F.St) → (F.get_download_url c s).0 ≢ panic
  pub plan : (c : Contributor) (s : F.St) → (F.get_upload_plan c s).0 ≢ panic
  pub finalize : (c : Contributor) (s : F.St) → (F.finalize_upload c s).0 ≢ panic
  pub test_url : (s : F.St) → (F.get_test_blob_download_url s).0 ≢ panic
  pub verification :
      (c : Contributor) (hash : String) (previous : Option Contributor) (s : F.St)
      → (F.verification_job c hash previous s).0 ≢ panicked

module _ (F : FilesStore) (T : Total F) where
  previous_no_panic : (s : State F.St) → (previous_url F s).0 ≢ panic
  unfolding previous_url
  previous_no_panic s =
      elim (Option-cases (get_most_recent_finished_contributor s.contributors_db)) [
        | inl e ↦ ground (arith, e)
        | inr (prev_c, e) ↦ ground (arith, e, T.url prev_c s.contribution_files_store)
      ]

module _ (F : FilesStore) (T : Total F) (s : State F.St) (v : Inv s.contributors_db) where
  explained :
      (c : Contributor) (r : ContributorRow)
      → find_key c.verifying_key s.contributors_db ≡ some r
      → r.status ≡ kicked
      → is_some r.kicked_error ≡ true
  explained c r e k = (v.valid r (find_key-some _ s.contributors_db e).0).explained k

  progress_no_panic :
      (finished : Bool) (c : Contributor) (now : ℕ)
      → ((handle_update_download_progress F finished c now s).0 ≢ panic)
        × ((handle_update_compute_progress F finished c now s).0 ≢ panic)
  unfolding handle_update_download_progress handle_update_compute_progress get_with_pos
      check_correct_state
  progress_no_panic finished c now =
      elim (Option-cases (find_key c.verifying_key s.contributors_db)) [
        | inl e ↦ ground arith
        | inr (r, e) ↦ ground (arith, explained c r e)
      ]

  upload_no_panic :
      (finished : Bool) (hash : String) (c : Contributor) (now : ℕ)
      → (handle_update_upload_progress F finished hash c now s).0 ≢ panic
  unfolding handle_update_upload_progress get_with_pos check_correct_state
  upload_no_panic finished hash c now =
      elim (Option-cases (find_key c.verifying_key s.contributors_db)) [
        | inl e ↦ ground arith
        | inr (r, e) ↦ ground (arith, explained c r e, T.finalize c s.contribution_files_store)
      ]

  join_no_panic :
      (c : Contributor) (now download compute upload : ℕ)
      → (handle_join F c now download compute upload s).0 ≢ panic
  unfolding handle_join get_with_pos
  join_no_panic c now download compute upload = ground arith

  status_no_panic :
      (c : Contributor) (now later : ℕ) → (handle_get_status F c now later s).0 ≢ panic
  unfolding handle_get_status get_with_pos
  status_no_panic c now later = elim (Option-cases (find_key c.verifying_key s.contributors_db)) [
    | inl e ↦ ground arith
    | inr (r, e) ↦
        let touched = update_timestamp now r s.contributors_db in
        ground (
          arith,
          previous_no_panic F T (record s { contributors_db = touched }),
          previous_no_panic F T
              (record s { contributors_db = mark_started_download later r touched }),
          T.plan c s.contribution_files_store,
        )
  ]

  register_no_panic : (c : Contributor) (now : ℕ) → (handle_register F c now s).0 ≢ panic
  unfolding handle_register register
  register_no_panic c now = ground arith

  reads_no_panic :
      (c : Contributor)
      → ((handle_report F s).0 ≢ panic)
        × ((handle_download_latest F s).0 ≢ panic)
        × ((handle_get_test_contribution_download_link F s).0 ≢ panic)
        × ((handle_get_test_contribution_upload_link F c s).0 ≢ panic)
  unfolding handle_report handle_download_latest handle_get_test_contribution_download_link
      handle_get_test_contribution_upload_link
  reads_no_panic c = elim (Option-cases (get_most_recent_finished_contributor s.contributors_db)) [
    | inl e ↦
        ground
          (arith, e, T.plan c s.contribution_files_store, T.test_url s.contribution_files_store)
    | inr (latest_c, e) ↦ ground (
      arith,
      e,
      T.url latest_c s.contribution_files_store,
      T.plan c s.contribution_files_store,
      T.test_url s.contribution_files_store,
    )
  ]

module _ (F : FilesStore) (T : Total F) where
  urls_no_panic : (cs : Table) (s : State F.St) → (download_urls F cs s).0 ≢ panic
  unfolding download_urls
  urls_no_panic [] s = ground arith
  urls_no_panic (c ∷ cs) s = ground (
    arith,
    T.url (contributor c) s.contribution_files_store,
    urls_no_panic cs (on_files (F.get_download_url (contributor c)) s).1,
  )

  pub tick_no_panic :
      (config : Config)
      → IsBounded config
      → (now later : ℕ) (s : State F.St) → (handle_tick F config now later s).0 ≢ panic
  unfolding handle_tick kick_current ping_timeout download_timeout contribute_timeout upload_timeout
  tick_no_panic config b now later s =
      ground (arith, b.ping_fits, b.download_fits, b.contribute_fits, b.upload_fits)

  module _ (W : Wire) (config : Config) (s : State F.St) (v : Inv s.contributors_db) where
    pub handle_no_panic : (e : Surroundings) (m : Msg) → (handle F W config e m s).0 ≢ panic
    unfolding handle handle_download_all
    handle_no_panic e (Msg.join c d k u) = ground (arith, join_no_panic F T s v c e.now d k u)
    handle_no_panic e (Msg.get_status c) = ground (arith, status_no_panic F T s v c e.now e.later)
    handle_no_panic e (Msg.update_download_progress b c) =
        ground (arith, (progress_no_panic F T s v b c e.now).0)
    handle_no_panic e (Msg.update_compute_progress b c) =
        ground (arith, (progress_no_panic F T s v b c e.now).1)
    handle_no_panic e (Msg.update_upload_progress b c h) =
        ground (arith, upload_no_panic F T s v b h c e.now)
    handle_no_panic e (Msg.register c) = ground (arith, register_no_panic F T s v c e.now)
    handle_no_panic e Msg.report = ground (arith, (reads_no_panic F T s v e.test_contributor).0)
    handle_no_panic e Msg.download_all =
        ground (arith, urls_no_panic (get_finished_contributors s.contributors_db) s)
    handle_no_panic e Msg.download_latest =
        ground (arith, (reads_no_panic F T s v e.test_contributor).1)
    handle_no_panic e (Msg.get_test_contribution_download_link c) =
        ground (arith, (reads_no_panic F T s v e.test_contributor).2)
    handle_no_panic e (Msg.get_test_contribution_upload_link c) =
        ground (arith, (reads_no_panic F T s v e.test_contributor).3)
