-- ===== src/Server/VerificationJob/Turn.antt =====
-- A whole turn over the files store of the cloud: server/src/handlers.rs on
-- server/src/store/contribution_files.rs and server/src/verification_job.rs, with the upload of
-- common/src/upload.rs.
use aptos_setup_ceremony.Base.{ℕ, ◌≡◌, String, true, Option, some, List, []}
use aptos_setup_ceremony.Contributor.{Contributor}
use aptos_setup_ceremony.Crypto.Attempt.{done}
use aptos_setup_ceremony.Crypto.Curve.{Curve}
use aptos_setup_ceremony.Crypto.Contribution.{ContributionInner, Contribution, verify}
use aptos_setup_ceremony.Stateful.{Action}
use aptos_setup_ceremony.Upload.{send_parallel}
use aptos_setup_ceremony.Server.Authentication.{Wire}
use aptos_setup_ceremony.Server.Config.{Config}
use aptos_setup_ceremony.Server.Error.{FilesError, ok}
use aptos_setup_ceremony.Server.Responses.{StatusResponse}
use aptos_setup_ceremony.Server.State.{FilesStore, State}
use aptos_setup_ceremony.Server.Store.Row.{
  ContributorStatus, ContributorRow, download_not_started, get_current_contribution_step,
}
use aptos_setup_ceremony.Server.Store.Db.{find_key}
use aptos_setup_ceremony.Server.Handlers.{
  handle_get_status, handle_update_download_progress, handle_update_compute_progress,
  handle_update_upload_progress,
}
use aptos_setup_ceremony.Server.Store.ContributionFiles.{Cloud, ContributionFilesStore, ObjectName}
use aptos_setup_ceremony.Server.Store.ContributionFiles.Bucket.{IsBucket}
use aptos_setup_ceremony.Server.Store.ContributionFiles.RoundTrip.{IsKeyEncoding, IsUpload}
use aptos_setup_ceremony.Server.VerificationJob.{Encodings}
use aptos_setup_ceremony.Server.VerificationJob.Accepts.{StoredBefore}
use aptos_setup_ceremony.Server.System.{resume, step}
use aptos_setup_ceremony.Server.System.Turn.Steps.{Holds}
use aptos_setup_ceremony.Server.System.Turn.Finishes.{Good, turn-finishes}
use aptos_setup_ceremony.Server.VerificationJob.Serves.{SignsDownloads, on_cloud, cloud_stages}

module _ (C : Curve) (I : ContributionInner C) (N : Encodings C I) (params : I.Params) (G : Cloud)
    (store : ContributionFilesStore) (objects : G.St → ObjectName → Option (List ℕ))
    (opens : String → ObjectName → Type 0) (c : Contributor) (B : IsBucket G objects store opens c)
    (K : IsKeyEncoding G.as_bytes) (put_part : String → List ℕ → Action FilesError G.St (Unit {0}))
    (P : IsUpload G objects put_part opens) where
  open G use {St}

  abbrev on_files : FilesStore
  on_files = on_cloud C I N params G store objects opens c B K put_part P

  module _ (previous : Option Contributor) (maybe : Option (Contribution C I)) (bytes : List ℕ)
      (new : Contribution C I) where
    -- A contributor stands at the head of the queue, the turn has not begun, and no verification runs.
    -- While the cloud works and signs URLs, and for bytes that decode to a contribution that the
    -- verification with the stored previous one accepts, the client's five requests succeed one after
    -- another, the upload of the bytes to the URLs of the plan succeeds before the last of them, and
    -- the three stretches of the verification end with the contributor finished and no task left, at
    -- all times of the clock.
    pub files_turn-finishes :
        (signs : SignsDownloads C I N params G store objects opens c B K put_part P)
        (decodes : N.from_bytes bytes ≡ some new)
        (passes : verify C I N.hash N.eq_hashes new N.thread_rng maybe params ≡ done tt) (W : Wire)
        (config : Config) (clock : ℕ → ℕ) (r : ContributorRow) (s : State St)
        → Good on_files W config s
        → Holds previous c r s
        → StoredBefore C I N params G store objects opens c B previous maybe
            s.contribution_files_store
        → get_current_contribution_step r ≡ download_not_started
        → (u : Option String) × (us : List String) × (s₁ s₂ s₃ s₄ s₅ s₆ s₇ s₈ : State St) × (t : St)
          × (handle_get_status on_files c (clock 0) (clock 1) s
              ≡ (ok (StatusResponse.ready_to_download_previous u), s₁))
          × (handle_update_download_progress on_files true c (clock 2) s₁ ≡ (ok tt, s₂))
          × (handle_update_compute_progress on_files true c (clock 3) s₂ ≡ (ok tt, s₃))
          × (handle_get_status on_files c (clock 4) (clock 5) s₃
              ≡ (ok (StatusResponse.ready_for_upload us), s₄))
          × (send_parallel bytes put_part us s₄.contribution_files_store ≡ (done tt, t))
          × (handle_update_upload_progress on_files true
                (N.blake3 bytes)
                c
                (clock 6)
                (record s₄ { contribution_files_store = t })
              ≡ (ok tt, s₅))
          × (step on_files W config (resume 0 (clock 7)) s₅ ≡ (ok tt, s₆))
          × (step on_files W config (resume 0 (clock 8)) s₆ ≡ (ok tt, s₇))
          × (step on_files W config (resume 0 (clock 9)) s₇ ≡ (ok tt, s₈))
          × ((r' : ContributorRow) × (find_key c.verifying_key s₈.contributors_db ≡ some r')
              × (r'.status ≡ ContributorStatus.finished))
          × (s₈.tasks ≡ [])
    unfolding cloud_stages
    files_turn-finishes signs decodes passes W config clock r s g h b st =
        let L =
          cloud_stages C I N params G store objects opens c B K put_part P previous maybe bytes new
            signs decodes passes in
        let (u, us, s₁, s₂, s₃, s₄, s₅, s₆, s₇, s₈, e₁, e₂, e₃, e₄, p, e₅, e₆, e₇, e₈, end, idle) =
          turn-finishes on_files W config c (N.blake3 bytes) previous L clock r s g h b st in
        let sent = L.sent us s₄.contribution_files_store p in
        (
          u,
          us,
          s₁,
          s₂,
          s₃,
          s₄,
          s₅,
          s₆,
          s₇,
          s₈,
          L.upload us s₄.contribution_files_store,
          e₁,
          e₂,
          e₃,
          e₄,
          sent.3,
          e₅,
          e₆,
          e₇,
          e₈,
          end,
          idle,
        )
