-- ===== src/Crypto/PowersOfTau.antt =====
-- The powers of tau: common/src/powers_of_tau.rs. `hash_point` hashes the preimages, and
-- `hash_text` the empty text of the first contribution.
pub mod Laws
use aptos_setup_ceremony.Base.{
  ℕ, zero, suc, ◌+◌, not, true, List, [], ◌∷◌, map, length, replicate, drop, ◌==◌, if◌then◌else◌,
}
use aptos_setup_ceremony.Server.Error.{ContributionVerificationFailure}
use aptos_setup_ceremony.Crypto.Attempt.{
  ContributionGenerationFailure, params_mismatch, Attempt, done, failed, panicked, ◌>>=◌,
}
use aptos_setup_ceremony.Crypto.Curve.{Curve}
use aptos_setup_ceremony.Crypto.MultipairingEquation.{
  MultipairingEquation, zip, with_shared_g2s, combine,
}
use aptos_setup_ceremony.Crypto.BlsSok
use aptos_setup_ceremony.Crypto.BlsSok.{BlsSok, sign}

pub record PowersOfTauParams : Type 0 where
  pub max_power : ℕ

module _ (C : Curve) where
  open C use {
    Fr, G1, G2, Rng, one, mul, mul_g1, generator_g1, eq_g1, neg_g2, mul_g2, generator_g2,
    is_zero_g2, rand,
  }

  pub record HashPreimage : Type 0 where
    pub previous_tau_g2 : G2
    pub tau_g2 : G2

  pub record PowersOfTauContributionInner : Type 0 where
    pub powers : List G1
    pub tau_g2 : G2
    pub sok : BlsSok C

  unfoldable pub first_contribution : G1 → PowersOfTauParams → PowersOfTauContributionInner
  unfolding sign
  first_contribution hash_text params = record {
    powers = replicate (params.max_power + 1) generator_g1;
    tau_g2 = generator_g2;
    sok = sign C (λ (u : Unit {0}). hash_text) one tt;
  }

  -- `successors(Some(power), |power| Some(power * tau)).take(n)`
  unfoldable pub successors : Fr → Fr → ℕ → List Fr
  successors tau power zero = []
  successors tau power (suc n) = power ∷ successors tau (mul power tau) n

  abbrev pub scale : List Fr → List G1 → List G1
  scale scalars points = map (λ p. mul_g1 p.0 p.1) (zip scalars points)

  -- The pairs of neighbours, the higher power first.
  abbrev pub neighbours : List G1 → List (List G1)
  neighbours powers = map (λ p. p.0 ∷ p.1 ∷ []) (zip (drop 1 powers) powers)

  -- `self.powers[0]`
  abbrev pub first : List G1 → Attempt ContributionVerificationFailure G1
  first [] = panicked
  first (p ∷ ps) = done p

  module _ (hash_point : HashPreimage → G1) where
    unfoldable pub generate :
        Rng
        → PowersOfTauContributionInner
        → PowersOfTauParams
        → Attempt ContributionGenerationFailure ((PowersOfTauContributionInner × List Fr) × Rng)
    unfolding successors sign
    generate rng previous params =
        if not (length previous.powers == params.max_power + 1)
        then failed params_mismatch
        else let (current_contribution_tau_fr, rng') = rand rng in
          let powers_fr = successors current_contribution_tau_fr one (params.max_power + 1) in
          let new_tau_g2 = mul_g2 current_contribution_tau_fr previous.tau_g2 in
          done (
            (
              record {
                powers = scale powers_fr previous.powers;
                tau_g2 = new_tau_g2;
                sok =
                    sign C hash_point current_contribution_tau_fr
                      (record { previous_tau_g2 = previous.tau_g2; tau_g2 = new_tau_g2 });
              },
              powers_fr,
            ),
            rng',
          )

    unfoldable pub verify :
        PowersOfTauContributionInner
        → Rng
        → PowersOfTauContributionInner
        → PowersOfTauParams
        → Attempt ContributionVerificationFailure (MultipairingEquation C × Rng)
    unfolding BlsSok.verify with_shared_g2s combine
    verify self rng previous params =
        if not (length self.powers == params.max_power + 1)
        then failed ContributionVerificationFailure.params_mismatch
        else first self.powers >>= λ power.
            if not (eq_g1 power generator_g1)
            then failed ContributionVerificationFailure.shape_mismatch
            else if is_zero_g2 self.tau_g2
            then failed ContributionVerificationFailure.trivial_contribution
            else let sok_check_equation =
                BlsSok.verify C hash_point self.sok previous.tau_g2 self.tau_g2
                  (record { previous_tau_g2 = previous.tau_g2; tau_g2 = self.tau_g2 }) in
              with_shared_g2s C rng (neighbours self.powers)
                (generator_g2 ∷ neg_g2 self.tau_g2 ∷ [])
              >>= λ r. done (combine C r.1 sok_check_equation r.0)
