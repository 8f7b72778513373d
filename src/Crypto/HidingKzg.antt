-- ===== src/Crypto/HidingKzg.antt =====
-- The hiding KZG commitment key: common/src/hiding_kzg.rs. `setup` of `aptos-dkg`, which `output`
-- calls, is a parameter.
pub mod Laws
use aptos_setup_ceremony.Base.{ℕ, ◌+◌, not, List, [], ◌∷◌, length, ◌==◌, if◌then◌else◌}
use aptos_setup_ceremony.Server.Error.{ContributionVerificationFailure}
use aptos_setup_ceremony.Crypto.Attempt.{
  ContributionGenerationFailure, params_mismatch, Attempt, done, failed, ◌>>=◌,
}
use aptos_setup_ceremony.Crypto.Curve.{Curve}
use aptos_setup_ceremony.Crypto.MultipairingEquation.{MultipairingEquation, simple, add, compact}
use aptos_setup_ceremony.Crypto.BlsSok
use aptos_setup_ceremony.Crypto.BlsSok.{BlsSok, sign}
use aptos_setup_ceremony.Crypto.PowersOfTau
use aptos_setup_ceremony.Crypto.PowersOfTau.{PowersOfTauParams, PowersOfTauContributionInner}

module _ (C : Curve) where
  open C use {
    Fr, G1, G2, Rng, one, mul_g1, generator_g1, neg_g2, mul_g2, generator_g2, is_zero_g2, rand,
  }

  pub record HidingKzgContributionInner : Type 0 where
    pub tau_powers_contrib_inner : PowersOfTauContributionInner C
    pub xi_g1 : G1
    pub xi_g2 : G2
    pub sok_xi : BlsSok C

  pub record HashPreimage : Type 0 where
    pub previous_xi_g1 : G1
    pub previous_xi_g2 : G2
    pub new_xi_g2 : G2

  unfoldable pub first_contribution : G1 → PowersOfTauParams → HidingKzgContributionInner
  unfolding sign PowersOfTau.first_contribution
  first_contribution hash_text params = record {
    tau_powers_contrib_inner = PowersOfTau.first_contribution C hash_text params;
    xi_g1 = generator_g1;
    xi_g2 = generator_g2;
    sok_xi = sign C (λ (u : Unit {0}). hash_text) one tt;
  }

  module _ (hash_pot : PowersOfTau.HashPreimage C → G1) (hash_xi : HashPreimage → G1) where
    unfoldable pub generate :
        Rng
        → HidingKzgContributionInner
        → PowersOfTauParams
        → Attempt ContributionGenerationFailure
            ((HidingKzgContributionInner × (List Fr × Fr)) × Rng)
    unfolding sign
    generate rng previous params =
        if not (length previous.tau_powers_contrib_inner.powers == params.max_power + 1)
        then failed params_mismatch
        else PowersOfTau.generate C hash_pot rng previous.tau_powers_contrib_inner params
          >>= λ made.
              let (current_contribution_xi_fr, rng') = rand made.1 in
              let new_xi_g2 = mul_g2 current_contribution_xi_fr previous.xi_g2 in
              done (
                (
                  record {
                    tau_powers_contrib_inner = made.0.0;
                    xi_g1 = mul_g1 current_contribution_xi_fr previous.xi_g1;
                    xi_g2 = new_xi_g2;
                    sok_xi = sign C hash_xi current_contribution_xi_fr (record {
                      previous_xi_g1 = previous.xi_g1;
                      previous_xi_g2 = previous.xi_g2;
                      new_xi_g2 = new_xi_g2;
                    });
                  },
                  (made.0.1, current_contribution_xi_fr),
                ),
                rng',
              )

    unfoldable pub verify :
        HidingKzgContributionInner
        → Rng
        → HidingKzgContributionInner
        → PowersOfTauParams
        → Attempt ContributionVerificationFailure (MultipairingEquation C × Rng)
    unfolding BlsSok.verify compact
    verify self rng previous params =
        if not (length self.tau_powers_contrib_inner.powers == params.max_power + 1)
        then failed ContributionVerificationFailure.params_mismatch
        else if is_zero_g2 self.xi_g2
        then failed ContributionVerificationFailure.trivial_contribution
        else PowersOfTau.verify C hash_pot self.tau_powers_contrib_inner rng
            previous.tau_powers_contrib_inner params
          >>= λ pot.
              let sok_check_equation =
                BlsSok.verify C hash_xi self.sok_xi previous.xi_g2 self.xi_g2 (record {
                  previous_xi_g1 = previous.xi_g1;
                  previous_xi_g2 = previous.xi_g2;
                  new_xi_g2 = self.xi_g2;
                }) in
              let xi_g1_g2_consistency_equation =
                simple C (self.xi_g1 ∷ generator_g1 ∷ []) (neg_g2 generator_g2 ∷ self.xi_g2 ∷ []) in
              done (
                compact C pot.1
                  (add C (add C (add C [] pot.0) sok_check_equation) xi_g1_g2_consistency_equation))

  unfoldable pub output :
      {K : Type 0} → (List G1 → G2 → G1 → G2 → K) → HidingKzgContributionInner → K
  output setup self =
      setup self.tau_powers_contrib_inner.powers self.tau_powers_contrib_inner.tau_g2 self.xi_g1
        self.xi_g2
