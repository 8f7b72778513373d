-- ===== src/Server/Queue/Effects.antt =====
-- What each handler of server/src/handlers.rs does to the table, as equations.
use aptos_setup_ceremony.Base.{
  ℕ, ◌≡◌, ◌≢◌, ◌⊎◌, Bool, true, none, some, Option, if◌then◌else◌, arith, String, ◌++◌, ◌∷◌, [],
  ◌&&◌, not,
}
use aptos_setup_ceremony.Contributor.{Contributor}
use aptos_setup_ceremony.Base.Int.{ℤ, ltb_ℤ}
use aptos_setup_ceremony.Server.Config.{
  Config, ping_timeout, download_timeout, contribute_timeout, upload_timeout,
}
use aptos_setup_ceremony.Server.Error.{
  KickedError, ping_timed_out, download_timed_out, compute_timed_out, upload_timed_out, ok, err,
  panic, Outcome, ErrorWithCode,
}
use aptos_setup_ceremony.Server.State.{FilesStore, State, spawned}
use aptos_setup_ceremony.Server.Store.Row.{
  didnt_join_queue, queued, kicked, ContributorRow, Table, enqueue, update_timestamp,
  mark_started_download, mark_started_compute, mark_started_upload, mark_finished_upload,
  get_current_contribution_step, same_variant, download_not_started, download_started,
  compute_started, upload_started, verifying, new, mark_kicked,
}
use aptos_setup_ceremony.Server.Store.Db.{
  find_key, pos_of, get_with_pos, get_current, register, kick_current,
}
use aptos_setup_ceremony.Server.Handlers.{
  handle_join, handle_get_status, handle_update_download_progress, check_correct_state,
  handle_update_compute_progress, handle_update_upload_progress, handle_register, handle_tick,
  previous_url, elapsed,
}

-- Why a step that has taken the time `time` is over its limit, if it is.
abbrev late : ℤ → Outcome ℤ → (ℤ → ℤ → KickedError) → Outcome (Option KickedError)
late time (ok limit) text = ok (if ltb_ℤ limit time then some (text time limit) else none)
late time (err e) text = err e
late time panic text = panic

-- Why a tick at the time `t` kicks the current contributor, if it does: no ping for too long, or
-- too much time in one of the three timed steps. A contribution that is being verified is exempt.
-- A limit that is read and is no duration is a panic.
unfoldable pub overdue : Config → ℕ → ContributorRow → Outcome (Option KickedError)
overdue config t r = elim (ping_timeout config) [
  | panic ↦ panic
  | err e ↦ err e
  | ok limit ↦
      if ltb_ℤ limit (elapsed t r.updated_timestamp)
        && not (same_variant (get_current_contribution_step r) verifying)
      then ok (some (ping_timed_out (elapsed t r.updated_timestamp) limit))
      else elim (get_current_contribution_step r) [
        | download_started start ↦
            late (elapsed t start) (download_timeout config) download_timed_out
        | compute_started start ↦
            late (elapsed t start) (contribute_timeout config) compute_timed_out
        | upload_started start ↦ late (elapsed t start) (upload_timeout config) upload_timed_out
        | _ ↦ ok none
      ]
]

pub overdue-no_error :
    (config : Config) (t : ℕ) (r : ContributorRow) (e : ErrorWithCode) → overdue config t r ≢ err e
unfolding overdue ping_timeout download_timeout contribute_timeout upload_timeout
overdue-no_error config t r e = ground arith

module _ (F : FilesStore) (s : State F.St) where
  abbrev db : Table
  db = s.contributors_db

  pub handle_join_effect :
      (c : Contributor) (now download compute upload : ℕ)
      → let s' = (handle_join F c now download compute upload s).1 in
        let db' = s'.contributors_db in
        (s'.tasks ≡ s.tasks)
        × ((db' ≡ db)
            ⊎ ((r : ContributorRow) × (find_key c.verifying_key db ≡ some r)
                × ((r.status ≡ didnt_join_queue) ⊎ (r.status ≡ kicked))
                × (db' ≡ enqueue now r download compute upload db)))
  unfolding handle_join get_with_pos
  handle_join_effect c now download compute upload = ground arith

  -- The request has found its contributor's row, at the position `pos` 0.
  abbrev Found : Contributor → ContributorRow → Type 0
  Found c r = find_key c.verifying_key db ≡ some r

  pub handle_get_status_effect :
      (c : Contributor) (now later : ℕ)
      → let s' = (handle_get_status F c now later s).1 in
        let db' = s'.contributors_db in
        (s'.tasks ≡ s.tasks)
        × ((db' ≡ db)
            ⊎ ((r : ContributorRow) × Found c r × (db' ≡ update_timestamp now r db))
            ⊎ ((r : ContributorRow) × Found c r
                × (r.status ≡ queued)
                × (pos_of db r ≡ 0)
                × (get_current_contribution_step r ≡ download_not_started)
                × (db' ≡ mark_started_download later r (update_timestamp now r db))))
  unfolding handle_get_status get_with_pos previous_url
  handle_get_status_effect c now later = ground arith

  pub handle_update_download_progress_effect :
      (finished : Bool) (c : Contributor) (now : ℕ)
      → let s' = (handle_update_download_progress F finished c now s).1 in
        let db' = s'.contributors_db in
        (s'.tasks ≡ s.tasks)
        × ((db' ≡ db)
            ⊎ ((r : ContributorRow) × Found c r × (db' ≡ update_timestamp now r db))
            ⊎ ((r : ContributorRow) × Found c r
                × (r.status ≢ kicked)
                × (pos_of db r ≡ 0)
                × (same_variant (get_current_contribution_step r) (download_started now) ≡ true)
                × (db' ≡ mark_started_compute now r db)))
  unfolding handle_update_download_progress get_with_pos check_correct_state
  handle_update_download_progress_effect finished c now = ground arith

  pub handle_update_compute_progress_effect :
      (finished : Bool) (c : Contributor) (now : ℕ)
      → let s' = (handle_update_compute_progress F finished c now s).1 in
        let db' = s'.contributors_db in
        (s'.tasks ≡ s.tasks)
        × ((db' ≡ db)
            ⊎ ((r : ContributorRow) × Found c r × (db' ≡ update_timestamp now r db))
            ⊎ ((r : ContributorRow) × Found c r
                × (r.status ≢ kicked)
                × (pos_of db r ≡ 0)
                × (same_variant (get_current_contribution_step r) (compute_started now) ≡ true)
                × (db' ≡ mark_started_upload now r db)))
  unfolding handle_update_compute_progress get_with_pos check_correct_state
  handle_update_compute_progress_effect finished c now = ground arith

  pub handle_update_upload_progress_effect :
      (finished : Bool) (hash : String) (c : Contributor) (now : ℕ)
      → let s' = (handle_update_upload_progress F finished hash c now s).1 in
        let db' = s'.contributors_db in
        ((s'.tasks ≡ s.tasks)
          × ((db' ≡ db) ⊎ ((r : ContributorRow) × Found c r × (db' ≡ update_timestamp now r db))))
        ⊎ ((r : ContributorRow) × Found c r
            × (r.status ≢ kicked)
            × (pos_of db r ≡ 0)
            × (same_variant (get_current_contribution_step r) (upload_started now) ≡ true)
            × (db' ≡ mark_finished_upload now r hash db)
            × (s'.tasks ≡ s.tasks ++ spawned c hash ∷ []))
  unfolding handle_update_upload_progress get_with_pos check_correct_state
  handle_update_upload_progress_effect finished hash c now = ground arith

  pub handle_register_effect :
      (c : Contributor) (now : ℕ)
      → let s' = (handle_register F c now s).1 in
        let db' = s'.contributors_db in
        (s'.tasks ≡ s.tasks)
        × ((db' ≡ db) ⊎ ((find_key c.verifying_key db ≡ none) × (db' ≡ db ++ new now c ∷ [])))
  unfolding handle_register register
  handle_register_effect c now = ground arith

  -- The tick reads the current contributor once, and makes at most one write.
  pub handle_tick-none :
      (config : Config) (current_time later : ℕ)
      → get_current db ≡ none
      → handle_tick F config current_time later s ≡ (ok tt, s)
  unfolding handle_tick
  handle_tick-none config current_time later e = ground arith

  pub handle_tick-overdue :
      (config : Config) (current_time later : ℕ) (r : ContributorRow) (error : KickedError)
      → get_current db ≡ some r
      → overdue config current_time r ≡ ok (some error)
      → handle_tick F config current_time later s
        ≡ (ok tt, record s { contributors_db = mark_kicked later r error db })
  unfolding handle_tick overdue kick_current
  handle_tick-overdue config current_time later r error e o = ground arith

  pub handle_tick-panic :
      (config : Config) (current_time later : ℕ) (r : ContributorRow)
      → get_current db ≡ some r
      → overdue config current_time r ≡ panic
      → handle_tick F config current_time later s ≡ (panic, s)
  unfolding handle_tick overdue
  handle_tick-panic config current_time later r e o = ground arith

  pub handle_tick-in_time :
      (config : Config) (current_time later : ℕ) (r : ContributorRow)
      → get_current db ≡ some r
      → overdue config current_time r ≡ ok none
      → handle_tick F config current_time later s ≡ (
        ok tt,
        record s {
          contributors_db = elim (get_current_contribution_step r) [
            | download_not_started ↦ mark_started_download later r db
            | _ ↦ db
          ];
        },
      )
  unfolding handle_tick overdue
  handle_tick-in_time config current_time later r e o = ground arith
