-- ===== src/Server/VerificationJob.antt =====
-- The verification of an upload: server/src/verification_job.rs, with `run_verify` of
-- server/src/handlers.rs after its lock. BCS, blake3 and the random numbers are parameters. The
-- computation that rayon spawns ends before the next action of the job.
pub mod Accepts
pub mod Serves
pub mod Turn
use text.Mathlib.Text.{◌==◌}
use aptos_setup_ceremony.Base.{ℕ, String, Bool, not, Option, none, some, List, if◌then◌else◌}
use aptos_setup_ceremony.Contributor.{Contributor}
use aptos_setup_ceremony.Crypto.Attempt.{Attempt, done, failed, panicked}
use aptos_setup_ceremony.Crypto.Curve.{Curve}
use aptos_setup_ceremony.Crypto.Contribution.{ContributionInner, Contribution, verify}
use aptos_setup_ceremony.Stateful.{Action, ◌>>=◌, pure, throw, lift, map_err}
use aptos_setup_ceremony.Server.Error.{
  ContributionVerificationFailure, VerificationError, store_failure, hash_mismatch,
  current_parse_error, previous_parse_error, refused, store_error, FilesError, Outcome, ok, err,
  panic, from_error,
}
use aptos_setup_ceremony.Server.State.{FilesStore}
use aptos_setup_ceremony.Server.Store.ContributionFiles
use aptos_setup_ceremony.Server.Store.ContributionFiles.{
  Cloud, ContributionFilesStore, download_contribution,
}

-- The parameters of a job: the chain's hashes, the encodings, and the generator of the worker.
pub record Encodings (C : Curve) (I : ContributionInner C) : Type 0 where
  pub hash : Contribution C I → ℕ
  pub eq_hashes : List (Contributor × ℕ) → List (Contributor × ℕ) → Bool
  pub blake3 : List ℕ → String
  pub to_bytes : Contribution C I → List ℕ
  pub from_bytes : List ℕ → Option (Contribution C I)
  pub thread_rng : C.Rng

module _ (C : Curve) (I : ContributionInner C) (N : Encodings C I) (params : I.Params) (G : Cloud)
    (store : ContributionFilesStore) where
  open G use {St}

  -- The previous contribution, if there is one.
  unfoldable pub download_previous :
      Option Contributor → Action VerificationError St (Option (Contribution C I))
  unfolding download_contribution
  download_previous none = pure none
  download_previous (some previous) = do
    bytes ← map_err store_failure (download_contribution G store previous)
    elim (N.from_bytes bytes) [
      | none ↦ throw previous_parse_error
      | some contribution ↦ pure (some contribution)
    ]

  -- The result is what the job's channel receives.
  unfoldable pub start :
      Contributor
      → String
      → Option Contributor
      → Action VerificationError St (Attempt ContributionVerificationFailure (Unit {0}))
  unfolding download_contribution download_previous verify
  start current hash maybe_previous = do
    current_contribution_bytes ← map_err store_failure (download_contribution G store current)
    if not (N.blake3 current_contribution_bytes == hash)
        then throw hash_mismatch
        else elim (N.from_bytes current_contribution_bytes) [
          | none ↦ throw current_parse_error
          | some current_contribution ↦ do
            maybe_previous_contribution ← download_previous maybe_previous
            pure (
                verify C I N.hash N.eq_hashes current_contribution N.thread_rng
                  maybe_previous_contribution params)
        ]

  unfoldable pub verification_job :
      Contributor → String → Option Contributor → Action VerificationError St (Unit {0})
  unfolding start
  verification_job current hash maybe_previous = do
    result ← start current hash maybe_previous
    map_err refused (lift result)

-- A result of the files store, as the handlers' `?` takes it.
abbrev pub to_outcome : {A : Type 0} → Attempt FilesError A → Outcome A
to_outcome (done a) = ok a
to_outcome (failed e) = err (from_error (store_error e))
to_outcome panicked = panic

abbrev pub as_handler : {S A : Type 0} → Action FilesError S A → S → Outcome A × S
as_handler m s = (to_outcome (m s).0, (m s).1)

-- The handlers' files store, over the cloud.
abbrev pub files_store :
    (C : Curve) (I : ContributionInner C)
    → Encodings C I
    → I.Params
    → (G : Cloud) → ContributionFilesStore
    → FilesStore
files_store C I N params G store = record {
  St = G.St;
  get_download_url = λ c. as_handler (ContributionFiles.get_download_url G store c);
  get_upload_plan = λ c. as_handler (ContributionFiles.get_upload_plan G store c);
  finalize_upload = λ c. as_handler (ContributionFiles.finalize_upload G store c);
  get_test_blob_download_url = as_handler (ContributionFiles.get_test_blob_download_url G store);
  verification_job = λ c hash previous. verification_job C I N params G store c hash previous;
}
