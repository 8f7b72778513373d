-- ===== src/Server/System/Requests.antt =====
-- Every request and every tick makes only moves of the queue's state machine.
use aptos_setup_ceremony.Base.{
  ℕ, ◌≡◌, refl, ◌⊎◌, inl, inr, false, some, none, arith, [], ◌∷◌, Option-cases, Bool-cases,
}
use aptos_setup_ceremony.Contributor.{Contributor}
use aptos_setup_ceremony.Messages.{Msg, AuthenticatedMsg}
use aptos_setup_ceremony.Server.Error.{KickedError, ErrorWithCode, Outcome-cases, ok, err, panic}
use aptos_setup_ceremony.Server.Authentication.{
  Wire, Request, from_request, verify_correctly_authenticated,
}
use aptos_setup_ceremony.Server.Authentication.Laws.{
  from_request_panics, IsBroken, verify_correctly_authenticated-signer,
}
use aptos_setup_ceremony.Server.Config.{Config}
use aptos_setup_ceremony.Server.Dispatch.{
  Surroundings, handle, deserialize_authenticate_and_handle, request_handler,
}
use aptos_setup_ceremony.Server.State.{FilesStore, State, on_files}
use aptos_setup_ceremony.Server.Store.Row.{
  ContributorRow, Table, contributor, CurrentContributionStep, same_variant, verifying,
  get_current_contribution_step, download_not_started, mark_started_download,
}
use aptos_setup_ceremony.Server.Store.Db.{get_finished_contributors, get_current}
use aptos_setup_ceremony.Server.Handlers.{
  handle_join, handle_get_status, handle_update_download_progress, handle_update_compute_progress,
  handle_update_upload_progress, handle_register, handle_tick, handle_report, handle_download_all,
  download_urls, handle_download_latest, handle_get_test_contribution_download_link,
  handle_get_test_contribution_upload_link,
}
use aptos_setup_ceremony.Server.Queue.{IsFresh, Inv}
use aptos_setup_ceremony.Server.Queue.Reads.{get_current-some}
use aptos_setup_ceremony.Server.Queue.Effects.{
  overdue, handle_tick-none, handle_tick-overdue, handle_tick-in_time, handle_tick-panic,
  overdue-no_error,
}
use aptos_setup_ceremony.Server.Queue.Moves
use aptos_setup_ceremony.Server.Queue.Moves.{IsHead, Move, Moves, one}
use aptos_setup_ceremony.Server.System.Refines.{
  Leads, Leads-lift, join-Moves, get_status-Moves, download_progress-Moves, compute_progress-Moves,
  upload_progress-Moves, register-Moves,
}

overdue-verifying :
    (config : Config) (t : ℕ) (r : ContributorRow) (x : KickedError)
    → overdue config t r ≡ ok (some x)
    → same_variant (get_current_contribution_step r) verifying ≡ false
unfolding overdue
overdue-verifying config t r x o = ground arith

-- The requests that only read leave the table and the tasks as they are.
abbrev Same : {S : Type 0} → State S → State S → Type 0
Same s s' = (s'.contributors_db ≡ s.contributors_db) × (s'.tasks ≡ s.tasks)

module _ (F : FilesStore) where
  download_urls-Same : (cs : Table) (s : State F.St) → Same s (download_urls F cs s).1
  unfolding download_urls
  download_urls-Same [] s = (refl, refl)
  download_urls-Same (c ∷ cs) s =
      ground (arith, download_urls-Same cs (on_files (F.get_download_url (contributor c)) s).1)

  reads-Same :
      (s : State F.St) (c : Contributor)
      → Same s (handle_report F s).1
        × Same s (handle_download_latest F s).1
        × Same s (handle_get_test_contribution_download_link F s).1
        × Same s (handle_get_test_contribution_upload_link F c s).1
  unfolding handle_report handle_download_latest handle_get_test_contribution_download_link
      handle_get_test_contribution_upload_link
  reads-Same s c = ground arith

module _ (F : FilesStore) (W : Wire) (config : Config) (e : Surroundings) (r : Request)
    (s : State F.St) where
  pub authenticated_only :
      (IsBroken r × (deserialize_authenticate_and_handle F W config e r s ≡ (panic, s)))
      ⊎ ((x : ErrorWithCode) × (deserialize_authenticate_and_handle F W config e r s ≡ (err x, s)))
      ⊎ ((m : AuthenticatedMsg) × (from_request W r ≡ ok m)
          × (verify_correctly_authenticated W m config ≡ ok tt)
          × (deserialize_authenticate_and_handle F W config e r s ≡ handle F W config e m.inner s))
  unfolding deserialize_authenticate_and_handle
  authenticated_only = elim (Outcome-cases (from_request W r)) [
    | inl p ↦ inl (from_request_panics W config r p, ground arith)
    | inr (inl (x, p)) ↦ inr (inl (x, ground arith))
    | inr (inr (m, p)) ↦ elim (verify_correctly_authenticated-signer W config m) [
      | inl (w, a) ↦ inr (inr (m, p, a, ground arith))
      | inr (w, x, a, c) ↦ inr (inl (x, ground arith))
    ]
  ]

module _ (F : FilesStore) (W : Wire) (config : Config) (s : State F.St)
    (v : Inv s.contributors_db) where
  unchanged : (s' : State F.St) → Same s s' → Leads s s'
  unchanged s' h = one (Moves.rest h.0 h.1)

  -- A request makes only moves of the queue.
  pub handle-Moves :
      (e : Surroundings) (m : Msg)
      → IsFresh e.now s.contributors_db
      → Leads s (handle F W config e m s).1
  unfolding handle handle_download_all
  handle-Moves e (Msg.join c d k u) fresh = elim (Bool-cases config.stopped) [
    | inl on ↦ rw on (one (Moves.rest refl refl))
    | inr off ↦
        rw off (Leads-lift (handle_join F c e.now d k u) _ s (join-Moves F s v c e.now d k u fresh))
  ]
  handle-Moves e (Msg.get_status c) fresh =
      Leads-lift (handle_get_status F c e.now e.later) _ s (get_status-Moves F s v c e.now e.later)
  handle-Moves e (Msg.update_download_progress b c) fresh =
      Leads-lift (handle_update_download_progress F b c e.now) _ s
        (download_progress-Moves F s v b c e.now)
  handle-Moves e (Msg.update_compute_progress b c) fresh =
      Leads-lift (handle_update_compute_progress F b c e.now) _ s
        (compute_progress-Moves F s v b c e.now)
  handle-Moves e (Msg.update_upload_progress b c h) fresh =
      Leads-lift (handle_update_upload_progress F b h c e.now) _ s
        (upload_progress-Moves F s v b h c e.now)
  handle-Moves e (Msg.register c) fresh =
      Leads-lift (handle_register F c e.now) _ s (register-Moves F s v c e.now)
  handle-Moves e Msg.report fresh =
      Leads-lift (handle_report F) _ s
        (unchanged (handle_report F s).1 (reads-Same F s e.test_contributor).0)
  handle-Moves e Msg.download_all fresh = Leads-lift (handle_download_all F) _ s (
      unchanged (handle_download_all F s).1
        (download_urls-Same F (get_finished_contributors s.contributors_db) s))
  handle-Moves e Msg.download_latest fresh =
      Leads-lift (handle_download_latest F) _ s
        (unchanged (handle_download_latest F s).1 (reads-Same F s e.test_contributor).1)
  handle-Moves e (Msg.get_test_contribution_download_link c) fresh =
      Leads-lift (handle_get_test_contribution_download_link F) _ s (
        unchanged (handle_get_test_contribution_download_link F s).1
          (reads-Same F s e.test_contributor).2)
  handle-Moves e (Msg.get_test_contribution_upload_link c) fresh =
      Leads-lift (handle_get_test_contribution_upload_link F e.test_contributor) _ s (
        unchanged (handle_get_test_contribution_upload_link F e.test_contributor s).1
          (reads-Same F s e.test_contributor).3)

  -- Over a table with the invariant, when the clock has passed the joining times of the queue, what a
  -- request makes of the table and of the tasks is a run of moves of the queue's state machine.
  pub request-Moves :
      (e : Surroundings) (r : Request)
      → IsFresh e.now s.contributors_db
      → Leads s (request_handler F W config e r s).1
  unfolding request_handler
  request-Moves e r fresh = elim (authenticated_only F W config e r s) [
    | inl (b, h) ↦ rw h (one (Moves.rest refl refl))
    | inr (inl (x, h)) ↦ rw h (one (Moves.rest refl refl))
    | inr (inr (m, p, q, h)) ↦ rw h (handle-Moves e m.inner fresh)
  ]

  pub tick-Moves : (now later : ℕ) → Leads s (handle_tick F config now later s).1
  tick-Moves now later = elim (Option-cases (get_current s.contributors_db)) [
    | inl e ↦ rw (handle_tick-none F s config now later e) (one (Moves.rest refl refl))
    | inr (r, e) ↦
        let (m, q, front) = get_current-some s.contributors_db v e in
        let h : IsHead s.contributors_db r = record { stored = m; waits = q; front = front } in
        elim (Outcome-cases (overdue config now r)) [
          | inl o ↦ rw (handle_tick-panic F s config now later r e o) (one (Moves.rest refl refl))
          | inr (inl (x, o)) ↦ absurd (overdue-no_error config now r x o)
          | inr (inr (none, o)) ↦
              rw (handle_tick-in_time F s config now later r e o)
                (in_time r h (get_current_contribution_step r) refl)
          | inr (inr (some x, o)) ↦
              rw (handle_tick-overdue F s config now later r x e o)
                (one (Moves.kick r later x h (overdue-verifying config now r x o) refl refl))
        ]
  ]
    where
      in_time :
          (r : ContributorRow)
          → IsHead s.contributors_db r
          → (st : CurrentContributionStep) → get_current_contribution_step r ≡ st
          → Leads s (record s {
            contributors_db = elim st [
              | download_not_started ↦ mark_started_download later r s.contributors_db
              | _ ↦ s.contributors_db
            ];
          })
      in_time r h download_not_started e = one (Moves.start_download r later h e refl refl)
      in_time r h _ e = one (Moves.rest refl refl)
