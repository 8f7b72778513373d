-- ===== src/Server/VerificationJob/Serves.antt =====
-- The files store of the cloud serves the stages of a turn: server/src/store/contribution_files.rs and
-- server/src/verification_job.rs, with the upload of common/src/upload.rs.
use aptos_setup_ceremony.Base.{
  ℕ, ◌≡◌, refl, sym, ap, subst, ◌∙◌, String, Option, none, some, List, [], ◌∷◌,
}
use aptos_setup_ceremony.Contributor.{Contributor}
use aptos_setup_ceremony.Crypto.Attempt.{Attempt, done}
use aptos_setup_ceremony.Crypto.Curve.{Curve}
use aptos_setup_ceremony.Crypto.Contribution.{ContributionInner, Contribution, verify}
use aptos_setup_ceremony.Stateful.{Action}
use aptos_setup_ceremony.Upload.{send_parallel}
use aptos_setup_ceremony.Server.Error.{FilesError}
use aptos_setup_ceremony.Server.State.{FilesStore}
use aptos_setup_ceremony.Server.Store.ContributionFiles
use aptos_setup_ceremony.Server.Store.ContributionFiles.{
  Cloud, ContributionFilesStore, ObjectName, Method, bucket_name, object_name, get_upload_plan,
  finalize_upload, generate_signed_download_url, object_exists,
}
use aptos_setup_ceremony.Server.Store.ContributionFiles.Bucket.{IsBucket, object_exists-found}
use aptos_setup_ceremony.Server.Store.ContributionFiles.Plan.{
  parts_of, AllOpen, get_upload_plan-Removed,
}
use aptos_setup_ceremony.Server.Store.ContributionFiles.RoundTrip.{
  IsKeyEncoding, IsUpload, download_contribution-finalize_upload,
}
use aptos_setup_ceremony.Server.VerificationJob.{
  Encodings, verification_job, files_store, to_outcome,
}
use aptos_setup_ceremony.Server.VerificationJob.Accepts.{
  StoredBefore, download_previous-kept, verification_job-done,
}
use aptos_setup_ceremony.Server.System.Turn.{Serves}

module _ (C : Curve) (I : ContributionInner C) (N : Encodings C I) (params : I.Params) (G : Cloud)
    (store : ContributionFilesStore) (objects : G.St → ObjectName → Option (List ℕ))
    (opens : String → ObjectName → Type 0) (c : Contributor) (B : IsBucket G objects store opens c)
    (K : IsKeyEncoding G.as_bytes) (put_part : String → List ℕ → Action FilesError G.St (Unit {0}))
    (P : IsUpload G objects put_part opens) where
  open G use {St}

  -- The URLs for downloads are signed, too.
  abbrev pub SignsDownloads : Type 0
  SignsDownloads =
      (n : ObjectName) (s : St)
      → (u : String) × (G.sign_url (bucket_name store.bucket_id) n Method.get 3600 s ≡ (done u, s))

  abbrev pub on_cloud : FilesStore
  on_cloud = files_store C I N params G store

  nonempty :
      (us : List String)
      → AllOpen opens us (parts_of G c)
      → (v : String) × (vs : List String) × (us ≡ v ∷ vs)
  nonempty [] o = absurd o
  nonempty (v ∷ vs) o = (v, vs, refl)

  module _ (previous : Option Contributor) (maybe : Option (Contribution C I)) (bytes : List ℕ)
      (new : Contribution C I) where
    abbrev IsBefore : St → Type 0
    IsBefore = StoredBefore C I N params G store objects opens c B previous maybe

    abbrev IsPlanned : List String → St → Type 0
    IsPlanned us t = (t₀ : St) × IsBefore t₀ × (get_upload_plan G store c t₀ ≡ (done us, t))

    abbrev IsUploaded : St → Type 0
    IsUploaded t =
        (us : List String) × (t₁ : St) × IsPlanned us t₁
        × (send_parallel bytes put_part us t₁ ≡ (done tt, t))

    abbrev IsEnded : St → Type 0
    IsEnded t = verification_job C I N params G store c (N.blake3 bytes) previous t ≡ (done tt, t)

    pub url_served :
        (signs : SignsDownloads) (p : Contributor) (q : Option Contributor)
        (m : Option (Contribution C I)) (t : St)
        → q ≡ some p
        → StoredBefore C I N params G store objects opens c B q m t
        → (u : String) × (ContributionFiles.get_download_url G store p t ≡ (done u, t))
    unfolding ContributionFiles.get_download_url generate_signed_download_url
    url_served signs p none m t e b = absurd (cc)
    url_served signs p (some q) none t e b = absurd b
    url_served signs p (some q) (some x) t e (d, (bs, h, _)) =
        let f : q ≡ p = cc in
        let (u, g) = signs (object_name G p) t in
        let there =
          object_exists-found G objects store opens c B (object_name G p) t bs
            (ap (λ z. objects t (object_name G z)) (sym f) ∙ h) in
        (u, rw (there, g) refl)

    -- Two answers of one call are the same.
    same_result :
        {A : Type 0} (a a' : A) (t t' : St)
        → (x : Attempt FilesError A × St) → x ≡ (done a, t)
        → x ≡ (done a', t')
        → (a ≡ a') × (t ≡ t')
    same_result a a' t t' x e f =
        let g : done a ≡ done a' = ap (λ p. p.0) (sym e ∙ f) in (cc, ap (λ p. p.1) (sym e ∙ f))

    -- The plan that was made is the one of the round trip, so the upload to it goes through.
    pub sent_all :
        (us : List String) (t : St)
        → IsPlanned us t
        → (t' : St) × (send_parallel bytes put_part us t ≡ (done tt, t'))
    sent_all us t (t₀, b, e) =
        let (vs, s₁, s₂, s₃, planned, sent, ended, got, kept) =
          download_contribution-finalize_upload G objects store opens c B put_part P bytes t₀ in
        let (p, q) = same_result vs us s₁ t _ planned e in
        (
          s₂,
          subst (λ us. send_parallel bytes put_part us t ≡ (done tt, s₂)) p
              (subst (λ t. send_parallel bytes put_part vs t ≡ (done tt, s₂)) q sent),
        )

    pub finalize_all :
        (t : St)
        → N.from_bytes bytes ≡ some new
        → verify C I N.hash N.eq_hashes new N.thread_rng maybe params ≡ done tt
        → IsUploaded t
        → (t' : St) × (finalize_upload G store c t ≡ (done tt, t')) × IsEnded t'
    finalize_all t decodes passes (us, t₁, (t₀, b, e), f) =
        let (vs, s₁, s₂, s₃, planned, sent, ended, got, kept) =
          download_contribution-finalize_upload G objects store opens c B put_part P bytes t₀ in
        let (p, q) = same_result vs us s₁ t₁ _ planned e in
        let sent' : send_parallel bytes put_part us t₁ ≡ (done tt, s₂) =
          subst (λ us. send_parallel bytes put_part us t₁ ≡ (done tt, s₂)) p
            (subst (λ t. send_parallel bytes put_part vs t ≡ (done tt, s₂)) q sent) in
        let (_, r) = same_result tt tt s₂ t _ sent' f in
        (
          s₃,
          subst (λ t. finalize_upload G store c t ≡ (done tt, s₃)) r ended,
          verification_job-done C I N params G store c previous s₃ new maybe bytes got decodes
              (download_previous-kept C I N params G store objects opens c B K previous maybe t₀ s₃
                b kept)
              passes,
        )

    pub planned_all :
        (t : St)
        → IsBefore t
        → (v : String) × (vs : List String) × (t' : St) × (get_upload_plan G store c t
            ≡ (done (v ∷ vs), t'))
    planned_all t b =
        let (us, t', e, o, _) = get_upload_plan-Removed G objects store opens c B t in
        let (v, vs, f) = nonempty us o in (v, vs, t', e ∙ ap (λ us. (done us, t')) f)

    -- The program's files store serves a turn.
    unfoldable pub cloud_stages :
        SignsDownloads
        → N.from_bytes bytes ≡ some new
        → verify C I N.hash N.eq_hashes new N.thread_rng maybe params ≡ done tt
        → Serves on_cloud c (N.blake3 bytes) previous
    cloud_stages signs decodes passes = record {
      Before = IsBefore;
      Planned = IsPlanned;
      Uploaded = IsUploaded;
      Ended = IsEnded;
      upload = λ us t. (send_parallel bytes put_part us t).1;
      url = λ p t e b.
          let (u, g) = url_served signs p previous maybe t e b in
          (u, t, ap (λ x. (to_outcome x.0, x.1)) g, b);
      plan = λ t b.
          let (v, vs, t', e) = planned_all t b in
          (v, vs, t', ap (λ x. (to_outcome x.0, x.1)) e, (t, b, e));
      sent = λ us t p.
          let (t', e) = sent_all us t p in
          (us, t, p, e ∙ ap (λ t'. (done tt, t')) (sym (ap (λ x. x.1) e)));
      finalize = λ t w.
          let (t', e, ended) = finalize_all t decodes passes w in
          (t', ap (λ x. (to_outcome x.0, x.1)) e, ended);
      verification = λ t e. ap (λ x. x.0) e;
    }
