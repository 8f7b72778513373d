-- ===== src/Server/Handlers.antt =====
-- The request handlers and the tick of server/src/handlers.rs. `now` is what `Utc::now` gives at
-- the first call of a handler, `later` at the second.
use aptos_setup_ceremony.Base.{
  ℕ, String, Bool, true, false, not, ◌&&◌, Option, none, some, List, [], ◌∷◌, ltb, if◌then◌else◌,
}
use aptos_setup_ceremony.Base.Int.{ℤ, sub_ℕ, ltb_ℤ}
use aptos_setup_ceremony.Contributor.{Contributor}
use aptos_setup_ceremony.Server.Config.{
  Config, ping_timeout, download_timeout, contribute_timeout, upload_timeout,
}
use aptos_setup_ceremony.Server.Error.{
  KickedError, no_text, ping_timed_out, download_timed_out, compute_timed_out, upload_timed_out,
  already_in_queue, already_finished, you_were_kicked, not_current, wrong_step,
  inconsistent_finished, no_contributions_yet, bad_request, not_found, gone, Outcome, ok, err,
  panic, fail, from_error,
}
use aptos_setup_ceremony.Server.Responses.{StatusResponse, ReportResponse}
use mathlib.Core.Option
use aptos_setup_ceremony.Server.State.{
  FilesStore, Handler, ◌>>=◌, ◌>>◌, lift, query, try_query, execute, try_execute, on_files, spawn,
}
use aptos_setup_ceremony.Server.Store.Row.{
  ContributorStatus, didnt_join_queue, queued, Table, CurrentContributionStep, download_not_started,
  download_started, compute_started, upload_started, verifying, variant_name, same_variant,
  ContributorRow, contributor, get_current_contribution_step, enqueue, update_timestamp,
  mark_started_download, mark_started_compute, mark_started_upload, mark_finished_upload,
}
use aptos_setup_ceremony.Server.Store.Db.{
  get_with_pos, get_most_recent_finished_contributor, get_current, get_contributors,
  get_finished_contributors, kick_current, register,
}

-- `row.kicked_error.as_ref().expect(...)`, inside the message that is sent with GONE.
abbrev pub kicked_reason : Option KickedError → Outcome (Unit {0})
kicked_reason none = panic
kicked_reason (some e) = fail (you_were_kicked e) gone

abbrev pub is_kicked : ContributorStatus → Bool
is_kicked ContributorStatus.kicked = true
is_kicked _ = false

unfoldable pub check_correct_state :
    ℕ → ContributorRow → CurrentContributionStep → Outcome (Unit {0})
unfolding get_current_contribution_step
check_correct_state pos row expected_step =
    if is_kicked row.status
    then kicked_reason row.kicked_error
    else if ltb 0 pos
    then fail not_current gone
    else if not (same_variant (get_current_contribution_step row) expected_step)
    then fail
        (wrong_step (variant_name (get_current_contribution_step row)) (variant_name expected_step))
        bad_request
    else ok tt

-- The elapsed time since `start`, as `TimeDelta`.
unfoldable pub elapsed : ℕ → ℕ → ℤ
elapsed current_time start = sub_ℕ current_time start

module _ (F : FilesStore) where
  open F use {St, get_download_url, get_upload_plan, finalize_upload, get_test_blob_download_url}

  unfoldable pub handle_join : Contributor → ℕ → ℕ → ℕ → ℕ → Handler St (Unit {0})
  unfolding get_with_pos enqueue
  handle_join c now download compute upload = do
    (pos, row) ← try_query (get_with_pos c)
    elim row.status [
      | didnt_join_queue ↦ execute (enqueue now row download compute upload)
      | ContributorStatus.kicked ↦ execute (enqueue now row download compute upload)
      | queued ↦ lift (fail already_in_queue bad_request)
      | ContributorStatus.finished ↦ lift (fail already_finished bad_request)
    ]

  -- The URL of the previous contribution, if there is one.
  unfoldable pub previous_url : Handler St (Option String)
  unfolding get_most_recent_finished_contributor
  previous_url = do
    prev ← query get_most_recent_finished_contributor
    elim prev [
      | none ↦ lift (ok none)
      | some prev_c ↦ do url ← on_files (get_download_url prev_c); lift (ok (some url))
    ]

  unfoldable pub handle_get_status : Contributor → ℕ → ℕ → Handler St StatusResponse
  unfolding get_with_pos update_timestamp mark_started_download get_current_contribution_step
      previous_url
  handle_get_status c now later = do
    (pos, row) ← try_query (get_with_pos c)
    execute (update_timestamp now row)
    elim row.status [
      | didnt_join_queue ↦ lift (ok StatusResponse.didnt_join)
      | ContributorStatus.kicked ↦
          lift (ok (StatusResponse.kicked (elim row.kicked_error [ none ↦ no_text | some e ↦ e ])))
      | ContributorStatus.finished ↦ lift (ok StatusResponse.finished)
      | queued ↦
          if ltb 0 pos
          then lift (ok (StatusResponse.waiting_in_queue pos))
          else elim (get_current_contribution_step row) [
            | download_not_started ↦ do
              execute (mark_started_download later row)
              url ← previous_url
              lift (ok (StatusResponse.ready_to_download_previous url))
            | download_started _ ↦ do
              url ← previous_url
              lift (ok (StatusResponse.ready_to_download_previous url))
            | compute_started _ ↦ do
              url ← previous_url
              lift (ok (StatusResponse.waiting_for_contribution_with_previous url))
            | upload_started _ ↦ do
              urls ← on_files (get_upload_plan c)
              lift (ok (StatusResponse.ready_for_upload urls))
            | verifying ↦ lift (ok StatusResponse.verifying)
            | CurrentContributionStep.finished ↦ lift (err (from_error inconsistent_finished))
          ]
    ]

  unfoldable pub handle_update_download_progress : Bool → Contributor → ℕ → Handler St (Unit {0})
  unfolding get_with_pos check_correct_state mark_started_compute update_timestamp
  handle_update_download_progress finished c now = do
    (pos, row) ← try_query (get_with_pos c)
    lift (check_correct_state pos row (download_started now))
    if finished then execute (mark_started_compute now row) else execute (update_timestamp now row)

  unfoldable pub handle_update_compute_progress : Bool → Contributor → ℕ → Handler St (Unit {0})
  unfolding get_with_pos check_correct_state mark_started_upload update_timestamp
  handle_update_compute_progress finished c now = do
    (pos, row) ← try_query (get_with_pos c)
    lift (check_correct_state pos row (compute_started now))
    if finished then execute (mark_started_upload now row) else execute (update_timestamp now row)

  unfoldable pub handle_update_upload_progress :
      Bool → String → Contributor → ℕ → Handler St (Unit {0})
  unfolding get_with_pos check_correct_state mark_finished_upload update_timestamp
  handle_update_upload_progress finished hash c now = do
    (pos, row) ← try_query (get_with_pos c)
    lift (check_correct_state pos row (upload_started now))
    if finished
        then (do
          on_files (finalize_upload c)
          execute (mark_finished_upload now row hash)
          spawn c hash)
        else execute (update_timestamp now row)

  -- The timeouts of the three timed steps.
  abbrev kick_if_late : ℕ → (ℤ → ℤ → KickedError) → ℤ → ℤ → Handler St (Unit {0})
  kick_if_late later text time limit =
      if ltb_ℤ limit time then try_execute (kick_current later (text time limit)) else lift (ok tt)

  unfoldable pub handle_tick : Config → ℕ → ℕ → Handler St (Unit {0})
  handle_tick config current_time later = do
    current ← query get_current
    elim current [
      | none ↦ lift (ok tt)
      | some r ↦ do
        limit ← lift (ping_timeout config)
        if ltb_ℤ limit (elapsed current_time r.updated_timestamp)
              && not (same_variant (get_current_contribution_step r) verifying)
            then try_execute (
                kick_current later
                  (ping_timed_out (elapsed current_time r.updated_timestamp) limit))
            else elim (get_current_contribution_step r) [
              | download_not_started ↦ execute (mark_started_download later r)
              | download_started start ↦ do
                limit ← lift (download_timeout config)
                kick_if_late later download_timed_out (elapsed current_time start) limit
              | compute_started start ↦ do
                limit ← lift (contribute_timeout config)
                kick_if_late later compute_timed_out (elapsed current_time start) limit
              | upload_started start ↦ do
                limit ← lift (upload_timeout config)
                kick_if_late later upload_timed_out (elapsed current_time start) limit
              | verifying ↦ lift (ok tt)
              | CurrentContributionStep.finished ↦ lift (ok tt)
            ]
    ]

  unfoldable pub handle_register : Contributor → ℕ → Handler St (Unit {0})
  unfolding register
  handle_register c now = try_execute (register now c)

  unfoldable pub handle_report : Handler St ReportResponse
  unfolding get_contributors get_current get_current_contribution_step
  handle_report = do
    contributors ← query get_contributors
    current ← query get_current
    lift (
        ok (record {
          status = Option.map get_current_contribution_step current;
          contributors = contributors;
        }))

  -- The loop of `handle_download_all`, with the zip at its end.
  unfoldable pub download_urls : Table → Handler St (List (ContributorRow × String))
  unfolding contributor
  download_urls [] = lift (ok [])
  download_urls (c ∷ cs) = do
    url ← on_files (get_download_url (contributor c))
    rest ← download_urls cs
    lift (ok ((c, url) ∷ rest))

  unfoldable pub handle_download_all : Handler St (List (ContributorRow × String))
  unfolding get_finished_contributors download_urls
  handle_download_all = do
    contributors ← query get_finished_contributors
    download_urls contributors

  unfoldable pub handle_get_test_contribution_download_link : Handler St String
  handle_get_test_contribution_download_link = on_files get_test_blob_download_url

  -- The contributor is `test_upload_contributor()`, with a random key.
  unfoldable pub handle_get_test_contribution_upload_link : Contributor → Handler St (List String)
  handle_get_test_contribution_upload_link test_contributor =
      on_files (get_upload_plan test_contributor)

  unfoldable pub handle_download_latest : Handler St String
  unfolding get_most_recent_finished_contributor
  handle_download_latest = do
    latest ← query get_most_recent_finished_contributor
    elim latest [
      | some latest_c ↦ on_files (get_download_url latest_c)
      | none ↦ lift (fail no_contributions_yet not_found)
    ]
