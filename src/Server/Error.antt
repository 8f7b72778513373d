-- ===== src/Server/Error.antt =====
-- Errors of the server: server/src/error.rs, with the messages of the other files as constructors.
-- A formatted text is the constructor of its format string, applied to what it prints.
use aptos_setup_ceremony.Base.{ℕ, String, Option, none, some, ◌≡◌, refl, ◌⊎◌, inl, inr}
use aptos_setup_ceremony.Base.Int.{ℤ}

-- common/src/errors.rs
pub data ContributionVerificationFailure : Type 0 where
  contribution_hash_mismatch trivial_contribution shape_mismatch : ContributionVerificationFailure
  multipairing_equation_non_zero_result params_mismatch : ContributionVerificationFailure

-- The errors of the files store and of the cloud behind it.
pub data FilesError : Type 0 where
  bucket_not_found already_exists : FilesError
  cloud_error : String → FilesError
  file_does_not_exist : String → FilesError
  deletion_failed : ℕ → String → FilesError

-- What makes the verification of an upload fail.
pub data VerificationError : Type 0 where
  store_failure : FilesError → VerificationError
  hash_mismatch current_parse_error previous_parse_error : VerificationError
  refused : ContributionVerificationFailure → VerificationError

-- The texts of the column `kicked_error`.
pub data KickedError : Type 0 where
  no_text : KickedError
  ping_timed_out : ℤ → ℤ → KickedError
  download_timed_out : ℤ → ℤ → KickedError
  compute_timed_out : ℤ → ℤ → KickedError
  upload_timed_out : ℤ → ℤ → KickedError
  verification_failed : VerificationError → KickedError

pub data AnyError : Type 0 where
  contributor_not_found already_registered no_current_contributor : AnyError
  already_in_queue already_finished not_accepting : AnyError
  you_were_kicked : KickedError → AnyError
  not_current : AnyError
  wrong_step : String → String → AnyError
  inconsistent_finished no_contributions_yet : AnyError
  must_be_same_contributor must_be_admin invalid_route bad_body : AnyError
  store_error : FilesError → AnyError

-- The codes of `hyper::StatusCode` that the server sets.
pub data StatusCode : Type 0 where
  bad_request unauthorized forbidden not_found gone : StatusCode
  internal_server_error service_unavailable : StatusCode

pub record ErrorWithCode : Type 0 where
  pub error : AnyError
  pub code : Option StatusCode

abbrev pub status_code : ErrorWithCode → StatusCode
status_code e = elim e.code [ none ↦ internal_server_error | some c ↦ c ]

-- `From<T: Into<anyhow::Error>>`, which `?` applies.
abbrev pub from_error : AnyError → ErrorWithCode
from_error e = record { error = e; code = none }

-- A panic aborts the process, by the hook that main.rs sets.
pub data Outcome {ℓ} (A : Type ℓ) : Type ℓ where
  ok : A → Outcome A
  err : ErrorWithCode → Outcome A
  panic : Outcome A

-- `use_code_on_error` on the error `e`.
abbrev pub fail {ℓ} : {A : Type ℓ} → AnyError → StatusCode → Outcome A
fail e c = err (record { error = e; code = some c })

pub Outcome-cases {ℓ} :
    {A : Type ℓ} (o : Outcome A)
    → (o ≡ panic) ⊎ ((x : ErrorWithCode) × (o ≡ err x)) ⊎ ((a : A) × (o ≡ ok a))
Outcome-cases panic = inl refl
Outcome-cases (err x) = inr (inl (x, refl))
Outcome-cases (ok a) = inr (inr (a, refl))
