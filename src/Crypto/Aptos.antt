-- ===== src/Crypto/Aptos.antt =====
-- The inner contribution of the ceremony, and its truncation: common/src/aptos.rs and
-- common/src/truncate.rs. `num_chunks` is `num_chunks_per_scalar` of `aptos-dkg`, and
-- `next_power_of_two` the one of the standard library, both parameters.
pub mod Laws
use aptos_setup_ceremony.Base.{ℕ, ◌+◌, ◌-◌, ◌*◌, [], map, take}
use aptos_setup_ceremony.Server.Error.{ContributionVerificationFailure}
use aptos_setup_ceremony.Crypto.Attempt.{ContributionGenerationFailure, Attempt, done, ◌>>=◌}
use aptos_setup_ceremony.Crypto.Curve.{Curve}
use aptos_setup_ceremony.Crypto.Fptx
use aptos_setup_ceremony.Crypto.Fptx.{FptxContributionInner}
use aptos_setup_ceremony.Crypto.Fptx.Params
use aptos_setup_ceremony.Crypto.Fptx.Params.{FptxParams, BatchSizeNotPowerOfTwo}
use aptos_setup_ceremony.Crypto.HidingKzg
use aptos_setup_ceremony.Crypto.HidingKzg.{HidingKzgContributionInner}
use aptos_setup_ceremony.Crypto.PowersOfTau
use aptos_setup_ceremony.Crypto.PowersOfTau.{PowersOfTauParams, PowersOfTauContributionInner}
use aptos_setup_ceremony.Crypto.MultipairingEquation.{MultipairingEquation, add, compact}

pub record AptosParams : Type 0 where
  pub fptx : FptxParams
  pub hiding_kzg : PowersOfTauParams

unfoldable pub new : (ℕ → ℕ) → ℕ → ℕ → ℕ → ℕ → Attempt BatchSizeNotPowerOfTwo AptosParams
unfolding Params.new
new next_power_of_two num_chunks batch_size num_rounds max_total_share_weight =
    let max_num_chunks_padded = next_power_of_two (max_total_share_weight * num_chunks + 1) - 1 in
    Params.new batch_size num_rounds >>= λ fptx.
    done (record { fptx = fptx; hiding_kzg = record { max_power = max_num_chunks_padded } })

module _ (C : Curve) where
  open C use {Rng, G1}

  pub record AptosContributionInner : Type 0 where
    pub fptx : FptxContributionInner C
    pub hiding_kzg : HidingKzgContributionInner C

  unfoldable pub first_contribution :
      {E : Type 0} → G1 → AptosParams → Attempt E AptosContributionInner
  unfolding Fptx.first_contribution HidingKzg.first_contribution
  first_contribution hash_text params = Fptx.first_contribution C hash_text params.fptx >>= λ fptx.
      done (record {
        fptx = fptx;
        hiding_kzg = HidingKzg.first_contribution C hash_text params.hiding_kzg;
      })

  module _ (hash_pot : PowersOfTau.HashPreimage C → G1) (hash_alpha : Fptx.HashPreimage C → G1)
      (hash_xi : HidingKzg.HashPreimage C → G1) where
    unfoldable pub generate :
        Rng
        → AptosContributionInner
        → AptosParams
        → Attempt ContributionGenerationFailure (AptosContributionInner × Rng)
    generate rng previous params =
        Fptx.generate C hash_pot hash_alpha rng previous.fptx params.fptx >>= λ fptx.
        HidingKzg.generate C hash_pot hash_xi fptx.1 previous.hiding_kzg params.hiding_kzg
        >>= λ hiding_kzg. done (record { fptx = fptx.0; hiding_kzg = hiding_kzg.0.0 }, hiding_kzg.1)

    unfoldable pub verify :
        AptosContributionInner
        → Rng
        → (ℕ → Rng)
        → AptosContributionInner
        → AptosParams
        → Attempt ContributionVerificationFailure (MultipairingEquation C × Rng)
    unfolding compact
    verify self rng thread_rng previous params =
        Fptx.verify C hash_pot hash_alpha self.fptx rng thread_rng previous.fptx params.fptx
        >>= λ fptx.
            HidingKzg.verify C hash_pot hash_xi self.hiding_kzg fptx.1 previous.hiding_kzg
              params.hiding_kzg
            >>= λ hiding_kzg. done (compact C hiding_kzg.1 (add C (add C [] fptx.0) hiding_kzg.0))

  unfoldable pub truncate_powers :
      PowersOfTauContributionInner C → ℕ → PowersOfTauContributionInner C
  truncate_powers self len = record self { powers = take (len + 1) self.powers }

  unfoldable pub truncate_fptx : FptxContributionInner C → ℕ → FptxContributionInner C
  unfolding truncate_powers
  truncate_fptx self len = record self {
    tau_powers_contrib_inner = truncate_powers self.tau_powers_contrib_inner len;
    randomized_tau_powers_g1 =
        map (λ shifted_powers. take (len + 1) shifted_powers) self.randomized_tau_powers_g1;
  }

  unfoldable pub truncate : AptosContributionInner → ℕ → AptosContributionInner
  unfolding truncate_fptx
  truncate self len = record self { fptx = truncate_fptx self.fptx len }
