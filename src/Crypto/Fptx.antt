-- ===== src/Crypto/Fptx.antt =====
-- The randomized powers of tau of the batch encryption: common/src/fptx.rs. The logging is left
-- out; `usize` is not bounded, since nothing here grows past the lengths of stored vectors.
pub mod Params
pub mod Laws
pub mod Made
pub mod First
use aptos_setup_ceremony.Base.{
  ℕ, zero, suc, ◌+◌, Bool, true, false, not, ◌&&◌, ◌||◌, List, [], ◌∷◌, ◌++◌, map, length,
  replicate, ◌==◌, if◌then◌else◌,
}
use aptos_setup_ceremony.Server.Error.{ContributionVerificationFailure}
use aptos_setup_ceremony.Crypto.Attempt.{
  ContributionGenerationFailure, params_mismatch, Attempt, done, failed, panicked, ◌>>=◌,
}
use aptos_setup_ceremony.Crypto.Curve.{Curve}
use aptos_setup_ceremony.Crypto.Fptx.Params.{FptxParams}
use aptos_setup_ceremony.Crypto.MultipairingEquation.{
  MultipairingEquation, MultipairingEquations, zip, rands, with_shared_g2s, add, add_eqs, compact,
}
use aptos_setup_ceremony.Crypto.BlsSok
use aptos_setup_ceremony.Crypto.BlsSok.{BlsSok, sign}
use aptos_setup_ceremony.Crypto.PowersOfTau
use aptos_setup_ceremony.Crypto.PowersOfTau.{PowersOfTauParams, PowersOfTauContributionInner, scale}

module _ (C : Curve) where
  open C use {
    Fr, G1, G2, Rng, one, mul, mul_g1, generator_g1, neg_g2, mul_g2, generator_g2, is_zero_g2,
    batch_mul, rand,
  }

  pub record FptxContributionInner : Type 0 where
    pub tau_powers_contrib_inner : PowersOfTauContributionInner C
    pub alphas_g2 : List G2
    pub soks_alphas : List (BlsSok C)
    pub randomized_tau_powers_g1 : List (List G1)

  pub record HashPreimage : Type 0 where
    pub previous_alpha_g2 : G2
    pub alpha_g2 : G2
    pub index : ℕ

  abbrev pub pot_params : FptxParams → PowersOfTauParams
  pot_params params = record { max_power = params.batch_size }

  unfoldable pub tau_powers_randomized_fr :
      {E : Type 0} → FptxParams → List Fr → List Fr → Attempt E (List (List Fr))
  tau_powers_randomized_fr params tau_powers_fr random_alphas =
      if params.num_rounds == length random_alphas
      then done (map (λ alpha. map (λ tau_power. mul alpha tau_power) tau_powers_fr) random_alphas)
      else panicked

  unfoldable pub first_contribution :
      {E : Type 0} → G1 → FptxParams → Attempt E FptxContributionInner
  unfolding sign PowersOfTau.first_contribution tau_powers_randomized_fr
  first_contribution hash_text params =
      let trivial_random_alphas_fr = replicate params.num_rounds one in
      let trivial_random_alphas_g2 =
        map (λ alpha. mul_g2 alpha generator_g2) trivial_random_alphas_fr in
      tau_powers_randomized_fr params (replicate (params.batch_size + 1) one)
        trivial_random_alphas_fr
      >>= λ tau_powers_trivial_randomness_fr. done (record {
        tau_powers_contrib_inner = PowersOfTau.first_contribution C hash_text (pot_params params);
        soks_alphas =
            replicate (length trivial_random_alphas_g2)
              (sign C (λ (u : Unit {0}). hash_text) one tt);
        alphas_g2 = trivial_random_alphas_g2;
        randomized_tau_powers_g1 =
            map (λ powers_for_r. batch_mul generator_g1 powers_for_r)
              tau_powers_trivial_randomness_fr;
      })

  -- The four sizes that `generate` and `verify` check first.
  abbrev pub sizes_match : FptxContributionInner → FptxParams → Bool
  sizes_match c params =
      length c.alphas_g2 == params.num_rounds
      && (length c.soks_alphas == params.num_rounds)
      && (length c.tau_powers_contrib_inner.powers == params.batch_size + 1)
      && (length c.randomized_tau_powers_g1 == params.num_rounds)

  module _ (hash_pot : PowersOfTau.HashPreimage C → G1) (hash_alpha : HashPreimage → G1) where
    -- The signatures from the round `i` on: scalars, old points and new points, zipped.
    unfoldable pub sign_alphas : ℕ → List Fr → List G2 → List G2 → List (BlsSok C)
    unfolding sign
    sign_alphas i (alpha_fr ∷ frs) (previous_alpha_g2 ∷ olds) (alpha_g2 ∷ news) =
        sign C hash_alpha alpha_fr
          (record { previous_alpha_g2 = previous_alpha_g2; alpha_g2 = alpha_g2; index = i })
        ∷ sign_alphas (suc i) frs olds news
    sign_alphas i _ _ _ = []

    -- Each round's scalars times the old points of the round.
    abbrev pub rerandomize : List (List Fr) → List (List G1) → List (List G1)
    rerandomize scalars olds = map (λ p. scale C p.0 p.1) (zip scalars olds)

    unfoldable pub generate :
        Rng
        → FptxContributionInner
        → FptxParams
        → Attempt ContributionGenerationFailure (FptxContributionInner × Rng)
    unfolding rands sign_alphas tau_powers_randomized_fr
    generate rng previous params =
        if not (sizes_match previous params)
        then failed params_mismatch
        else let (random_alphas_fr, rng') = rands C params.num_rounds rng in
          let random_alphas_g2 =
            map (λ p. mul_g2 p.0 p.1) (zip random_alphas_fr previous.alphas_g2) in
          let soks_alphas = sign_alphas 0 random_alphas_fr previous.alphas_g2 random_alphas_g2 in
          PowersOfTau.generate C hash_pot rng' previous.tau_powers_contrib_inner (pot_params params)
          >>= λ pot.
              tau_powers_randomized_fr params pot.0.1 random_alphas_fr
              >>= λ randomized_tau_powers_fr. done (
                record {
                  tau_powers_contrib_inner = pot.0.0;
                  soks_alphas = soks_alphas;
                  alphas_g2 = random_alphas_g2;
                  randomized_tau_powers_g1 =
                      rerandomize randomized_tau_powers_fr previous.randomized_tau_powers_g1;
                },
                pot.1,
              )

    abbrev pub any_zero : List G2 → Bool
    any_zero [] = false
    any_zero (q ∷ qs) = is_zero_g2 q || any_zero qs

    abbrev pub all_long : ℕ → List (List G1) → Bool
    all_long n [] = true
    all_long n (ps ∷ rest) = length ps == n && all_long n rest

    unfoldable pub sok_check_equations :
        ℕ → List G2 → List G2 → List (BlsSok C) → MultipairingEquations C
    unfolding BlsSok.verify
    sok_check_equations i (alpha_g2 ∷ alphas) (previous_alpha_g2 ∷ olds) (sok ∷ soks) =
        BlsSok.verify C hash_alpha sok previous_alpha_g2 alpha_g2
          (record { previous_alpha_g2 = previous_alpha_g2; alpha_g2 = alpha_g2; index = i })
        ∷ sok_check_equations (suc i) alphas olds soks
    sok_check_equations i _ _ _ = []

    -- One batch per round. Round `i` draws from `thread_rng i`, the generator of its worker.
    unfoldable pub alpha_check_equations :
        {E : Type 0}
        → (ℕ → Rng)
        → ℕ
        → List G1
        → List G2
        → List (List G1)
        → Attempt E (MultipairingEquations C)
    unfolding with_shared_g2s
    alpha_check_equations thread_rng i powers (alpha_g2 ∷ alphas) (tau_powers ∷ rest) =
        let others = alpha_check_equations thread_rng (suc i) powers alphas rest in
        with_shared_g2s C (thread_rng i) (map (λ p. p.0 ∷ p.1 ∷ []) (zip tau_powers powers))
          (generator_g2 ∷ neg_g2 alpha_g2 ∷ [])
        >>= λ r. others >>= λ eqs. done (r.0 ∷ eqs)
    alpha_check_equations thread_rng i powers _ _ = done []

    unfoldable pub verify :
        FptxContributionInner
        → Rng
        → (ℕ → Rng)
        → FptxContributionInner
        → FptxParams
        → Attempt ContributionVerificationFailure (MultipairingEquation C × Rng)
    unfolding sok_check_equations alpha_check_equations compact
    verify self rng thread_rng previous params =
        if not (sizes_match self params)
        then failed ContributionVerificationFailure.params_mismatch
        else if any_zero self.alphas_g2
        then failed ContributionVerificationFailure.trivial_contribution
        else if not (all_long (params.batch_size + 1) self.randomized_tau_powers_g1)
        then failed ContributionVerificationFailure.shape_mismatch
        else PowersOfTau.verify C hash_pot self.tau_powers_contrib_inner rng
            previous.tau_powers_contrib_inner (pot_params params)
          >>= λ pot.
              alpha_check_equations thread_rng 0 self.tau_powers_contrib_inner.powers self.alphas_g2
                self.randomized_tau_powers_g1
              >>= λ alpha_checks. done (
                  compact C pot.1 (
                    add_eqs C
                      (add_eqs C (add C [] pot.0)
                        (sok_check_equations 0 self.alphas_g2 previous.alphas_g2 self.soks_alphas))
                      alpha_checks))
