-- ===== src/Server/VerificationJob/Accepts.antt =====
-- From the making of a contribution to the server's verification of its upload:
-- common/src/contribution.rs, common/src/upload.rs, server/src/store/contribution_files.rs and
-- server/src/verification_job.rs together.
use text.Mathlib.TextEquality.{eq_iff}
use aptos_setup_ceremony.Base.{ℕ, ◌≡◌, ◌≢◌, refl, ◌∙◌, String, true, Option, none, some, List, Memᴰ}
use aptos_setup_ceremony.Contributor.{Contributor}
use aptos_setup_ceremony.Crypto.Attempt.{done}
use aptos_setup_ceremony.Crypto.Curve.{Curve}
use aptos_setup_ceremony.Crypto.Contribution.{ContributionInner, Contribution, generate, verify}
use aptos_setup_ceremony.Crypto.Contribution.Laws.{
  IsComplete, previous_inner, verify-generate_contribution,
}
use aptos_setup_ceremony.Stateful.{Action, indices}
use aptos_setup_ceremony.Upload.{send_parallel}
use aptos_setup_ceremony.Server.Error.{FilesError}
use aptos_setup_ceremony.Server.Store.ContributionFiles.{
  Cloud, ContributionFilesStore, ObjectName, object_name, get_upload_plan, finalize_upload,
  download_contribution, parallel_upload_parts,
}
use aptos_setup_ceremony.Server.Store.ContributionFiles.Bucket.{IsBucket}
use aptos_setup_ceremony.Server.Store.ContributionFiles.Plan.{parts_of}
use aptos_setup_ceremony.Server.Store.ContributionFiles.Finalize.{
  parts_apart, download_contribution-stored,
}
use aptos_setup_ceremony.Server.Store.ContributionFiles.RoundTrip.{
  IsKeyEncoding, IsUpload, object_name_injective, download_contribution-finalize_upload,
}
use aptos_setup_ceremony.Server.VerificationJob.{
  Encodings, download_previous, start, verification_job,
}

module _ (C : Curve) (I : ContributionInner C) (N : Encodings C I) (params : I.Params) (G : Cloud)
    (store : ContributionFilesStore) where
  open G use {St}

  -- The job's answer, where the downloads succeed and the bytes are those of contributions.
  pub verification_job-done :
      (c : Contributor) (previous : Option Contributor) (s : St) (cur : Contribution C I)
      (maybe : Option (Contribution C I)) (bytes : List ℕ)
      → download_contribution G store c s ≡ (done bytes, s)
      → N.from_bytes bytes ≡ some cur
      → download_previous C I N params G store previous s ≡ (done maybe, s)
      → verify C I N.hash N.eq_hashes cur N.thread_rng maybe params ≡ done tt
      → verification_job C I N params G store c (N.blake3 bytes) previous s ≡ (done tt, s)
  unfolding verification_job start
  verification_job-done c previous s cur maybe bytes e f g h =
      rw (verification_job, start, e, (eq_iff (N.blake3 bytes) (N.blake3 bytes)).1 refl, f, g, h)
        refl

  module _ (objects : St → ObjectName → Option (List ℕ)) (opens : String → ObjectName → Type 0)
      (c : Contributor) (B : IsBucket G objects store opens c) where
    -- The contribution that is stored before a new one, if there is one.
    abbrev pub StoredBefore : Option Contributor → Option (Contribution C I) → St → Type 0
    StoredBefore none none s = Unit {0}
    StoredBefore (some p) (some contribution) s =
        (p.verifying_key ≢ c.verifying_key)
        × ((b : List ℕ) × (objects s (object_name G p) ≡ some b)
            × (N.from_bytes b ≡ some contribution))
    StoredBefore _ _ s = ⊥

    pub download_previous-kept :
        (K : IsKeyEncoding G.as_bytes) (previous : Option Contributor)
        (maybe : Option (Contribution C I)) (s s' : St)
        → StoredBefore previous maybe s
        → ((n : ObjectName)
            → n ≢ object_name G c
            → (Memᴰ n (parts_of G c) → ⊥)
            → objects s' n ≡ objects s n)
        → download_previous C I N params G store previous s' ≡ (done maybe, s')
    unfolding download_previous
    download_previous-kept K none none s s' w k = refl
    download_previous-kept K none (some x) s s' w k = absurd w
    download_previous-kept K (some p) none s s' w k = absurd w
    download_previous-kept K (some p) (some x) s s' (d, (b, h, e)) k =
        let apart : object_name G p ≢ object_name G c = λ q. d (object_name_injective G K p c q) in
        let whole : (Memᴰ (object_name G p) (parts_of G c) → ⊥) =
          λ m. parts_apart G c p (indices 0 parallel_upload_parts) (object_name G p) m refl in
        let got =
          download_contribution-stored G objects store opens c B p b s'
            (k (object_name G p) apart whole ∙ h) in
        rw (got, e) refl

    -- A contributor makes a contribution on the stored previous one, or the first one, with a secret
    -- that is not refused, by an inner contribution that keeps its contract. Its bytes, which decode to
    -- it, are sent to the
    -- URLs of the contributor's plan, and the upload is ended. While the cloud works, every step
    -- succeeds, and the server's verification of the upload with the hash of the bytes accepts it.
    pub verification_job-generate :
        (K : IsKeyEncoding G.as_bytes)
        (put_part : String → List ℕ → Action FilesError St (Unit {0}))
        (P : IsUpload G objects put_part opens)
        (eq_hashes_iff : (xs ys : List (Contributor × ℕ))
          → (N.eq_hashes xs ys ≡ true → xs ≡ ys) × (xs ≡ ys → N.eq_hashes xs ys ≡ true))
        (first : I.Inner) (IsValid : I.Inner → Type 0) (IsSecret : C.Rng → I.Inner → Type 0)
        (k : IsComplete C I N.hash N.eq_hashes eq_hashes_iff params first IsValid IsSecret)
        (rng : C.Rng) (previous : Option Contributor) (maybe : Option (Contribution C I)) (s : St)
        (decodes : (x : Contribution C I) (rng' : C.Rng)
          → generate C I N.hash N.eq_hashes rng maybe c params ≡ done (x, rng')
          → N.from_bytes (N.to_bytes x) ≡ some x)
        → IsValid (previous_inner C I N.hash N.eq_hashes eq_hashes_iff params first maybe)
        → IsSecret rng (previous_inner C I N.hash N.eq_hashes eq_hashes_iff params first maybe)
        → StoredBefore previous maybe s
        → (new : Contribution C I) × (rng' : C.Rng) × (us : List String) × (s₁ s₂ s₃ : St)
          × (generate C I N.hash N.eq_hashes rng maybe c params ≡ done (new, rng'))
          × (get_upload_plan G store c s ≡ (done us, s₁))
          × (send_parallel (N.to_bytes new) put_part us s₁ ≡ (done tt, s₂))
          × (finalize_upload G store c s₂ ≡ (done tt, s₃))
          × (verification_job C I N params G store c (N.blake3 (N.to_bytes new)) previous s₃
              ≡ (done tt, s₃))
    verification_job-generate K put_part P eq_hashes_iff first IsValid IsSecret k rng previous maybe
          s decodes v w before =
        let (new, rng', made, valid, named, passes) =
          verify-generate_contribution C I N.hash N.eq_hashes eq_hashes_iff params first IsValid
            IsSecret k rng maybe c v w in
        let (us, s₁, s₂, s₃, planned, sent, ended, got, kept) =
          download_contribution-finalize_upload G objects store opens c B put_part P
            (N.to_bytes new) s in
        (
          new,
          rng',
          us,
          s₁,
          s₂,
          s₃,
          made,
          planned,
          sent,
          ended,
          verification_job-done c previous s₃ new maybe (N.to_bytes new) got (decodes new rng' made)
              (download_previous-kept K previous maybe s s₃ before kept) (passes N.thread_rng),
        )
