-- ===== src/Crypto/Contribution.antt =====
-- Contributions and their chain: common/src/contribution.rs. An inner contribution is any
-- implementation of the trait `ContributionInner`; blake3 over the BCS bytes is a parameter.
pub mod Laws
use aptos_setup_ceremony.Base.{
  ℕ, String, Bool, not, Option, none, some, List, [], ◌∷◌, ◌++◌, if◌then◌else◌,
}
use aptos_setup_ceremony.Contributor.{Contributor}
use aptos_setup_ceremony.Server.Error.{ContributionVerificationFailure}
use aptos_setup_ceremony.Crypto.Attempt.{
  ContributionGenerationFailure, Attempt, done, failed, panicked, ◌>>=◌,
}
use aptos_setup_ceremony.Crypto.Curve.{Curve}
use aptos_setup_ceremony.Crypto.MultipairingEquation.{MultipairingEquation, equals_zero}

-- The trait `ContributionInner`.
pub record ContributionInner (C : Curve) : Type 1 where
  pub Inner : Type 0
  pub Params : Type 0
  pub Secrets : Type 0
  pub Output : Type 0
  pub first_contribution : (E : Type 0) → Params → Attempt E Inner
  pub generate :
      C.Rng → Inner → Params → Attempt ContributionGenerationFailure ((Inner × Secrets) × C.Rng)
  pub verify :
      Inner
      → C.Rng
      → Inner
      → Params
      → Attempt ContributionVerificationFailure (MultipairingEquation C × C.Rng)
  pub output : Inner → Output

module _ (C : Curve) (I : ContributionInner C) where
  open I use {Inner, Params}

  pub record Contribution : Type 0 where
    pub inner : Inner
    pub contributor : Contributor
    pub previous_hashes : List (Contributor × ℕ)

  -- `equals_zero` with its error mapped.
  abbrev pub check_zero :
      MultipairingEquation C → Attempt ContributionVerificationFailure (Unit {0})
  check_zero equation = elim (equals_zero C equation) [
    | done u ↦ done u
    | failed _ ↦ failed ContributionVerificationFailure.multipairing_equation_non_zero_result
    | panicked ↦ panicked
  ]

  module _ (hash : Contribution → ℕ)
      (eq_hashes : List (Contributor × ℕ) → List (Contributor × ℕ) → Bool) where
    unfoldable pub build_previous_hashes : Contribution → List (Contributor × ℕ)
    build_previous_hashes previous =
        previous.previous_hashes ++ (previous.contributor, hash previous) ∷ []

    unfoldable pub generate :
        C.Rng
        → Option Contribution
        → Contributor
        → Params
        → Attempt ContributionGenerationFailure (Contribution × C.Rng)
    unfolding build_previous_hashes
    generate rng (some previous) current_contributor params =
        I.generate rng previous.inner params >>= λ made. done (
          record {
            inner = made.0.0;
            contributor = current_contributor;
            previous_hashes = build_previous_hashes previous;
          },
          made.1,
        )
    generate rng none current_contributor params = I.first_contribution _ params >>= λ first.
        I.generate rng first params >>= λ made. done (
          record { inner = made.0.0; contributor = current_contributor; previous_hashes = [] },
          made.1,
        )

    unfoldable pub verify :
        Contribution
        → C.Rng
        → Option Contribution
        → Params
        → Attempt ContributionVerificationFailure (Unit {0})
    unfolding build_previous_hashes equals_zero
    verify self rng (some previous) params =
        if not (eq_hashes self.previous_hashes (build_previous_hashes previous))
        then failed ContributionVerificationFailure.contribution_hash_mismatch
        else I.verify self.inner rng previous.inner params >>= λ r. check_zero r.0
    verify self rng none params = I.first_contribution _ params >>= λ first.
        I.verify self.inner rng first params >>= λ r. check_zero r.0

  unfoldable pub output : Contribution → I.Output
  output self = I.output self.inner
