-- ===== src/Server/System/Turn/Finishes.antt =====
-- A whole turn, from the head of the queue to the finished contribution: server/src/handlers.rs.
use aptos_setup_ceremony.Base.{
  ℕ, ◌≡◌, refl, sym, ap, ◌∙◌, String, true, Option, none, some, List, [], ◌∷◌, arith,
}
use aptos_setup_ceremony.Contributor.{Contributor}
use aptos_setup_ceremony.Crypto.Attempt.{done}
use aptos_setup_ceremony.Server.Authentication.{Wire}
use aptos_setup_ceremony.Server.Config.{Config}
use aptos_setup_ceremony.Server.Error.{ok}
use aptos_setup_ceremony.Server.Responses.{StatusResponse}
use aptos_setup_ceremony.Server.State.{FilesStore, State, spawned, started, verified}
use aptos_setup_ceremony.Server.Store.Row.{
  ContributorStatus, ContributorRow, download_not_started, download_started, compute_started,
  upload_started, get_current_contribution_step, update_where, set_timestamp, set_started_download,
  set_started_compute, set_started_upload, set_finished_verify, mark_finished_verify,
}
use aptos_setup_ceremony.Server.Store.Db.{find_key, get_most_recent_finished_contributor}
use aptos_setup_ceremony.Server.Handlers.{
  handle_get_status, handle_update_download_progress, handle_update_compute_progress,
  handle_update_upload_progress,
}
use aptos_setup_ceremony.Base.{subst}
use aptos_setup_ceremony.Server.Queue.Verifying.{IsGood}
use aptos_setup_ceremony.Server.Queue.Moves.Kept.{Moves-IsGood}
use aptos_setup_ceremony.Server.System.{resume, step}
use aptos_setup_ceremony.Server.System.Refines.{
  Leads, get_status-Moves, download_progress-Moves, compute_progress-Moves, upload_progress-Moves,
}
use aptos_setup_ceremony.Server.System.Running.{task-Moves}
use aptos_setup_ceremony.Server.System.Ends.{verified-verdict}
use aptos_setup_ceremony.Server.Tasks.{run_task}
use aptos_setup_ceremony.Server.System.Turn.{Serves, find_key-update_where}
use aptos_setup_ceremony.Server.System.Turn.Steps.{
  Holds, start_turn, end_download, end_compute, get_plan, end_upload,
}

-- The steps that the changes of a turn lead to.
steps_of :
    (r : ContributorRow) (n₀ n₁ n₂ n₃ n₄ : ℕ)
    → get_current_contribution_step r ≡ download_not_started
    → let r₁ = set_started_download n₁ (set_timestamp n₀ r) in
      let r₂ = set_started_compute n₂ r₁ in
      let r₃ = set_started_upload n₃ r₂ in
      (get_current_contribution_step r₁ ≡ download_started n₁)
      × (get_current_contribution_step r₂ ≡ compute_started n₂)
      × (get_current_contribution_step r₃ ≡ upload_started n₃)
      × (get_current_contribution_step (set_timestamp n₄ r₃) ≡ upload_started n₃)
unfolding get_current_contribution_step set_started_download set_timestamp set_started_compute
    set_started_upload
steps_of r n₀ n₁ n₂ n₃ n₄ st = ground (arith, st)

module _ (F : FilesStore) (W : Wire) (config : Config) where
  abbrev pub Good : State F.St → Type 0
  Good s = IsGood s.contributors_db s.tasks

  -- A move that a result tells.
  moved-Good :
      {A : Type 0} (s s' : State F.St) (m : A × State F.St) (a : A)
      → m ≡ (a, s')
      → Leads s m.1
      → Good s
      → Good s'
  moved-Good s s' m a e l g = subst Good (ap (λ p. p.1) e) (Moves-IsGood l g)

  -- The first two stretches of a verification that passes.
  verification-stretches :
      (c : Contributor) (hash : String) (n₀ n₁ : ℕ) (s : State F.St)
      → let p = get_most_recent_finished_contributor s.contributors_db in
        (F.verification_job c hash p s.contribution_files_store).0 ≡ done tt
        → s.tasks ≡ spawned c hash ∷ []
        → (s₁ s₂ : State F.St) × (step F W config (resume 0 n₀) s ≡ (ok tt, s₁))
          × (step F W config (resume 0 n₁) s₁ ≡ (ok tt, s₂))
          × (s₁.tasks
              ≡ started c hash (get_most_recent_finished_contributor s.contributors_db) ∷ [])
          × (s₂.tasks ≡ verified c none ∷ [])
          × (s₂.contributors_db ≡ s.contributors_db)
  unfolding step run_task
  verification-stretches c hash n₀ n₁ s d e =
      let p = get_most_recent_finished_contributor s.contributors_db in
      let t = (F.verification_job c hash p s.contribution_files_store).1 in
      (
        record s { tasks = started c hash p ∷ [] },
        record s { contribution_files_store = t; tasks = verified c none ∷ [] },
        ground (arith, e),
        ground (arith, d),
        refl,
        refl,
        refl,
      )

  -- The end of the verification: the row of the contributor is finished, and no task is left.
  verification-end :
      (c : Contributor) (now : ℕ) (r : ContributorRow) (s : State F.St)
      → Good s
      → s.tasks ≡ verified c none ∷ []
      → find_key c.verifying_key s.contributors_db ≡ some r
      → (s' : State F.St) × (step F W config (resume 0 now) s ≡ (ok tt, s'))
        × (find_key c.verifying_key s'.contributors_db ≡ some (set_finished_verify now r))
        × (s'.tasks ≡ [])
  unfolding mark_finished_verify set_finished_verify
  verification-end c now r s g e f =
      let (q, cur, k, h, ended) = verified-verdict F W config s g now c none e in
      let db = s.contributors_db in
      (
        record s {
          contributors_db = update_where q.verifying_key (set_finished_verify now) db;
          tasks = [];
        },
        ended,
        ap (λ n. find_key c.verifying_key (update_where n (set_finished_verify now) db)) k
            ∙ find_key-update_where c.verifying_key (set_finished_verify now) db {r = r} (λ x. refl)
                f,
        refl,
      )

  finished_status :
      (now : ℕ) (r : ContributorRow)
      → (set_finished_verify now r).status ≡ ContributorStatus.finished
  unfolding set_finished_verify
  finished_status now r = refl

  -- A contributor at the head of the queue whose turn has not begun, and no verification running, over
  -- a files store that serves the stages of the turn: the
  -- client's five requests succeed one after another, with the URL of the previous contribution and
  -- with the upload plan, to which the client uploads before the last one, and the three stretches of
  -- the verification end with the contributor finished and no task left, at all times of the clock.
  pub turn-finishes :
      (c : Contributor) (hash : String) (previous : Option Contributor)
      (L : Serves F c hash previous) (clock : ℕ → ℕ) (r : ContributorRow) (s : State F.St)
      → Good s
      → Holds previous c r s
      → L.Before s.contribution_files_store
      → get_current_contribution_step r ≡ download_not_started
      → (u : Option String) × (us : List String) × (s₁ s₂ s₃ s₄ s₅ s₆ s₇ s₈ : State F.St)
        × (handle_get_status F c (clock 0) (clock 1) s
            ≡ (ok (StatusResponse.ready_to_download_previous u), s₁))
        × (handle_update_download_progress F true c (clock 2) s₁ ≡ (ok tt, s₂))
        × (handle_update_compute_progress F true c (clock 3) s₂ ≡ (ok tt, s₃))
        × (handle_get_status F c (clock 4) (clock 5) s₃
            ≡ (ok (StatusResponse.ready_for_upload us), s₄))
        × L.Planned us s₄.contribution_files_store
        × (handle_update_upload_progress F true hash c
              (clock 6)
              (record s₄ { contribution_files_store = L.upload us s₄.contribution_files_store })
            ≡ (ok tt, s₅))
        × (step F W config (resume 0 (clock 7)) s₅ ≡ (ok tt, s₆))
        × (step F W config (resume 0 (clock 8)) s₆ ≡ (ok tt, s₇))
        × (step F W config (resume 0 (clock 9)) s₇ ≡ (ok tt, s₈))
        × ((r' : ContributorRow) × (find_key c.verifying_key s₈.contributors_db ≡ some r')
            × (r'.status ≡ ContributorStatus.finished))
        × (s₈.tasks ≡ [])
  turn-finishes c hash previous L clock r s g h b st =
      let (st₁, st₂, st₃, st₄) = steps_of r (clock 0) (clock 1) (clock 2) (clock 3) (clock 4) st in
      let (u, s₁, e₁, h₁, b₁) = start_turn F c hash previous L (clock 0) (clock 1) r s h b st in
      let (s₂, e₂, h₂, k₂) = end_download F c hash previous L (clock 2) (clock 1) _ s₁ h₁ st₁ in
      let (s₃, e₃, h₃, k₃) = end_compute F c hash previous L (clock 3) (clock 2) _ s₂ h₂ st₂ in
      let b₃ = subst L.Before (sym (k₃ ∙ k₂)) b₁ in
      let (v, us, s₄, e₄, h₄, p₄) =
        get_plan F c hash previous L (clock 4) (clock 5) (clock 3) _ s₃ h₃ b₃ st₃ in
      let files = s₄.contribution_files_store in
      let s₄' = record s₄ { contribution_files_store = L.upload (v ∷ us) files } in
      let h₄' : Holds previous c (set_timestamp (clock 4) _) s₄' = record {
        head = h₄.head;
        latest = h₄.latest;
        idle = h₄.idle;
      } in
      let (s₅, e₅, f₅, l₅, t₅, w₅) =
        end_upload F c hash previous L (clock 6) (clock 3) _ s₄' h₄' (L.sent (v ∷ us) files p₄)
          st₄ in
      let g₁ = moved-Good s s₁ _ _ e₁ (get_status-Moves F s g.table c (clock 0) (clock 1)) g in
      let g₂ =
        moved-Good s₁ s₂ _ _ e₂ (download_progress-Moves F s₁ g₁.table true c (clock 2)) g₁ in
      let g₃ = moved-Good s₂ s₃ _ _ e₃ (compute_progress-Moves F s₂ g₂.table true c (clock 3)) g₂ in
      let g₄ = moved-Good s₃ s₄ _ _ e₄ (get_status-Moves F s₃ g₃.table c (clock 4) (clock 5)) g₃ in
      let g₅ =
        moved-Good s₄' s₅ _ _ e₅ (upload_progress-Moves F s₄' g₄.table true hash c (clock 6)) g₄ in
      let passes =
        ap (λ p. (F.verification_job c hash p s₅.contribution_files_store).0) l₅
        ∙ L.verification s₅.contribution_files_store w₅ in
      let (s₆, s₇, e₆, e₇, t₆, t₇, same) =
        verification-stretches c hash (clock 7) (clock 8) s₅ passes t₅ in
      let g₆ = moved-Good s₅ s₆ _ _ e₆ (task-Moves F W config s₅ g₅ (clock 7) _ t₅).0 g₅ in
      let g₇ = moved-Good s₆ s₇ _ _ e₇ (task-Moves F W config s₆ g₆ (clock 8) _ t₆).0 g₆ in
      let (s₈, e₈, f₈, t₈) =
        verification-end c (clock 9) _ s₇ g₇ t₇ (ap (find_key c.verifying_key) same ∙ f₅) in
      (
        u,
        v ∷ us,
        s₁,
        s₂,
        s₃,
        s₄,
        s₅,
        s₆,
        s₇,
        s₈,
        e₁,
        e₂,
        e₃,
        e₄,
        p₄,
        e₅,
        e₆,
        e₇,
        e₈,
        (_, f₈, finished_status (clock 9) _),
        t₈,
      )
