-- ===== src/Crypto/Fptx/First.antt =====
-- The first contribution to the batch encryption setup: common/src/fptx.rs.
use aptos_setup_ceremony.Base.{
  ℕ, zero, suc, ◌+◌, ◌≡◌, refl, sym, ap, ◌∙◌, true, ◌∷◌, map, length, replicate, ◌==◌, length-map,
  length-replicate, ==_iff,
}
use aptos_setup_ceremony.Crypto.Attempt.{done}
use aptos_setup_ceremony.Crypto.Curve.{Curve, IsCurve}
use aptos_setup_ceremony.Crypto.BlsSok.{sign}
use aptos_setup_ceremony.Crypto.PowersOfTau
use aptos_setup_ceremony.Crypto.PowersOfTau.Laws.{points, first_contribution-IsPowersOf}
use aptos_setup_ceremony.Crypto.Fptx.Params.{FptxParams}
use aptos_setup_ceremony.Crypto.Fptx.Laws.{IsDigestOf}
use aptos_setup_ceremony.Crypto.Fptx.{
  FptxContributionInner, pot_params, tau_powers_randomized_fr, first_contribution,
}

module _ (C : Curve) (L : IsCurve C) where
  open C use {Fr, G1, G2, one, mul, mul_g1, generator_g1, mul_g2, generator_g2, batch_mul}

  -- The multiples by a row of ones.
  ones-points :
      (p : G1) (n : ℕ)
      → map (λ c. mul_g1 c p) (map (λ b. mul one b) (replicate n one))
        ≡ points C one (mul_g1 one p) n
  ones-points p zero = refl
  ones-points p (suc n) =
      ap (λ q. q ∷ map (λ c. mul_g1 c p) (map (λ b. mul one b) (replicate n one)))
        (L.mul_g1-mul one one p ∙ L.mul_g1-one (mul_g1 one p))
      ∙ ap (λ ps. mul_g1 one p ∷ ps)
          (ones-points p n ∙ ap (λ q. points C one q n) (sym (L.mul_g1-one (mul_g1 one p))))

  rows-points :
      (n k : ℕ)
      → map
          (λ row. batch_mul generator_g1 row)
          (map (λ a. map (λ b. mul a b) (replicate n one)) (replicate k one))
        ≡ map (λ a. points C one (mul_g1 a generator_g1) n) (replicate k one)
  rows-points n zero = refl
  rows-points n (suc k) =
      ap
        (λ row.
          row
          ∷ map (λ row. batch_mul generator_g1 row)
              (map (λ a. map (λ b. mul a b) (replicate n one)) (replicate k one)))
        (L.batch_mul-map generator_g1 (map (λ b. mul one b) (replicate n one))
          ∙ ones-points generator_g1 n)
      ∙ ap (λ rows. points C one (mul_g1 one generator_g1) n ∷ rows) (rows-points n k)

  -- What `first_contribution` makes, without a panic: a digest of the secret one in every round.
  pub first_contribution-IsDigestOf :
      (hash_text : G1) (params : FptxParams)
      → (c : FptxContributionInner C) × ((E : Type 0)
          → first_contribution C {E = E} hash_text params ≡ done c)
        × IsDigestOf C one (replicate params.num_rounds one) params c
  unfolding first_contribution tau_powers_randomized_fr
  first_contribution-IsDigestOf hash_text params =
      let ones = replicate params.num_rounds one in
      let alphas = map (λ alpha. mul_g2 alpha generator_g2) ones in
      let made : (params.num_rounds == length ones) ≡ true =
        (==_iff _ _).1 (sym (length-replicate params.num_rounds one)) in
      (
        record {
          tau_powers_contrib_inner =
              PowersOfTau.first_contribution C hash_text (pot_params C params);
          soks_alphas = replicate (length alphas) (sign C (λ (u : Unit {0}). hash_text) one tt);
          alphas_g2 = alphas;
          randomized_tau_powers_g1 =
              map (λ row. batch_mul generator_g1 row)
                (map (λ a. map (λ b. mul a b) (replicate (params.batch_size + 1) one)) ones);
        },
        (λ E. rw made refl),
        record {
          rounds = length-replicate params.num_rounds one;
          pot = first_contribution-IsPowersOf C L hash_text (pot_params C params);
          alphas_are = refl;
          soks =
              length-replicate (length alphas) _
              ∙ length-map ones _
              ∙ length-replicate params.num_rounds one;
          randomized_are = rows-points (params.batch_size + 1) params.num_rounds;
        },
      )
