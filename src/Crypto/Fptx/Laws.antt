-- ===== src/Crypto/Fptx/Laws.antt =====
-- The rounds of a batch encryption contribution, made and checked: common/src/fptx.rs.
use aptos_setup_ceremony.Base.{
  ℕ, zero, suc, ◌+◌, ◌≡◌, refl, sym, ap, ◌∙◌, arith, true, List, [], ◌∷◌, ◌++◌, map, length, ==_iff,
}
use aptos_setup_ceremony.Server.Error.{ContributionVerificationFailure}
use aptos_setup_ceremony.Crypto.Attempt.{done}
use aptos_setup_ceremony.Crypto.Curve.{Curve, IsCurve}
use aptos_setup_ceremony.Crypto.MultipairingEquation.{
  MultipairingEquation, MultipairingEquations, zip, rands,
}
use aptos_setup_ceremony.Crypto.MultipairingEquation.Laws.{AllHold}
use aptos_setup_ceremony.Crypto.MultipairingEquation.Shared.{firsts, seconds, with_shared_g2s-Holds}
use aptos_setup_ceremony.Crypto.BlsSok.{sign-verify}
use aptos_setup_ceremony.Crypto.PowersOfTau
use aptos_setup_ceremony.Crypto.PowersOfTau.{PowersOfTauContributionInner, successors, scale}
use aptos_setup_ceremony.Crypto.PowersOfTau.Laws.{swap, shift, points, points-length, IsPowersOf}
use aptos_setup_ceremony.Crypto.Fptx.Params.{FptxParams}
use aptos_setup_ceremony.Crypto.Fptx.{
  FptxContributionInner, HashPreimage, pot_params, sign_alphas, rerandomize, all_long,
  sok_check_equations, alpha_check_equations,
}

module _ (C : Curve) where
  open C use {
    Fr, G1, G2, Rng, one, mul, mul_g1, generator_g1, neg_g2, mul_g2, generator_g2, is_zero_g2, rand,
  }

  -- The points and the randomized powers of the secrets `alphas` and `t`.
  pub record IsDigestOf (t : Fr) (alphas : List Fr) (params : FptxParams)
      (c : FptxContributionInner C) : Type 0 where
    pub rounds : length alphas ≡ params.num_rounds
    pub pot : IsPowersOf C t (pot_params C params) c.tau_powers_contrib_inner
    pub alphas_are : c.alphas_g2 ≡ map (λ a. mul_g2 a generator_g2) alphas
    pub soks : length c.soks_alphas ≡ params.num_rounds
    pub randomized_are :
        c.randomized_tau_powers_g1
        ≡ map (λ a. points C t (mul_g1 a generator_g1) (params.batch_size + 1)) alphas

  module _ (L : IsCurve C) where
    pub rands-length : (n : ℕ) (rng : Rng) → length (rands C n rng).0 ≡ n
    unfolding rands
    rands-length zero rng = refl
    rands-length (suc n) rng = ap suc (rands-length n (rand rng).1)

    turn :
        (s t x α : Fr) (p : G1)
        → mul_g1 (mul α (mul x s)) (mul_g1 t p) ≡ mul_g1 (mul s t) (mul_g1 (mul α x) p)
    turn s t x α p =
        L.mul_g1-mul α (mul x s) (mul_g1 t p)
        ∙ ap (mul_g1 α) (shift C L s t x p)
        ∙ swap C L α (mul s t) (mul_g1 x p)
        ∙ ap (mul_g1 (mul s t)) (sym (L.mul_g1-mul α x p))

    -- One round: the scalars times the old points are the points of the products.
    scale-row :
        (s t x α : Fr) (p : G1) (n : ℕ)
        → scale C (map (λ b. mul α b) (successors C s x n)) (points C t p n)
          ≡ points C (mul s t) (mul_g1 (mul α x) p) n
    unfolding successors
    scale-row s t x α p zero = refl
    scale-row s t x α p (suc n) =
        ap (λ ps. mul_g1 (mul α x) p ∷ ps)
          (scale-row s t (mul x s) α (mul_g1 t p) n
            ∙ ap (λ q. points C (mul s t) q n) (turn s t x α p))

    -- The rounds: the new scalars `fresh` times the points of the old ones.
    pub rerandomize-points :
        (hash_pot : PowersOfTau.HashPreimage C → G1) (hash_alpha : HashPreimage C → G1) (s t : Fr)
        (n : ℕ) (fresh alphas : List Fr)
        → rerandomize C hash_pot hash_alpha
            (map (λ a. map (λ b. mul a b) (successors C s one n)) fresh)
            (map (λ a. points C t (mul_g1 a generator_g1) n) alphas)
          ≡ map
              (λ a. points C (mul s t) (mul_g1 a generator_g1) n)
              (map (λ p. mul p.0 p.1) (zip fresh alphas))
    rerandomize-points hash_pot hash_alpha s t n [] alphas = refl
    rerandomize-points hash_pot hash_alpha s t n (f ∷ fresh) [] = refl
    rerandomize-points hash_pot hash_alpha s t n (f ∷ fresh) (a ∷ alphas) =
        ap
          (λ ps.
            ps
            ∷ rerandomize C hash_pot hash_alpha
                (map (λ a. map (λ b. mul a b) (successors C s one n)) fresh)
                (map (λ a. points C t (mul_g1 a generator_g1) n) alphas))
          (scale-row s t one f (mul_g1 a generator_g1) n
            ∙ ap (λ q. points C (mul s t) q n)
                (L.mul_g1-mul f one (mul_g1 a generator_g1)
                  ∙ ap (mul_g1 f) (L.mul_g1-one (mul_g1 a generator_g1))
                  ∙ sym (L.mul_g1-mul f a generator_g1)))
        ∙ ap (λ rest. points C (mul s t) (mul_g1 (mul f a) generator_g1) n ∷ rest)
            (rerandomize-points hash_pot hash_alpha s t n fresh alphas)

    pub alphas-points :
        (fresh alphas : List Fr)
        → map (λ p. mul_g2 p.0 p.1) (zip fresh (map (λ a. mul_g2 a generator_g2) alphas))
          ≡ map (λ a. mul_g2 a generator_g2) (map (λ p. mul p.0 p.1) (zip fresh alphas))
    alphas-points [] alphas = refl
    alphas-points (f ∷ fresh) [] = refl
    alphas-points (f ∷ fresh) (a ∷ alphas) =
        ap
          (λ q. q ∷ map (λ p. mul_g2 p.0 p.1) (zip fresh (map (λ a. mul_g2 a generator_g2) alphas)))
          (sym (L.mul_g2-mul f a generator_g2))
        ∙ ap (λ rest. mul_g2 (mul f a) generator_g2 ∷ rest) (alphas-points fresh alphas)

    pub zip-length :
        (fresh alphas : List Fr)
        → length fresh ≡ length alphas
        → length (map (λ p. mul p.0 p.1) (zip fresh alphas)) ≡ length alphas
    zip-length [] [] e = refl
    zip-length [] (a ∷ alphas) e = absurd (omega arith)
    zip-length (f ∷ fresh) [] e = absurd (omega arith)
    zip-length (f ∷ fresh) (a ∷ alphas) e = ap suc (zip-length fresh alphas (omega arith))

    pub all_long-points :
        (hash_pot : PowersOfTau.HashPreimage C → G1) (hash_alpha : HashPreimage C → G1) (t : Fr)
        (n : ℕ) (alphas : List Fr)
        → all_long C hash_pot hash_alpha n (map (λ a. points C t (mul_g1 a generator_g1) n) alphas)
          ≡ true
    all_long-points hash_pot hash_alpha t n [] = refl
    all_long-points hash_pot hash_alpha t n (a ∷ alphas) =
        rw ((==_iff _ _).1 (points-length C t (mul_g1 a generator_g1) n))
          (all_long-points hash_pot hash_alpha t n alphas)

    -- A row of points times `a`, beside the row.
    zip-points :
        (a t : Fr) (p : G1) (n : ℕ)
        → firsts C (zip (points C t (mul_g1 a p) n) (points C t p n))
          ≡ map (λ q. mul_g1 a q) (seconds C (zip (points C t (mul_g1 a p) n) (points C t p n)))
    zip-points a t p zero = refl
    zip-points a t p (suc n) =
        ap (λ q. mul_g1 a p ∷ firsts C (zip (points C t q n) (points C t (mul_g1 t p) n)))
          (swap C L t a p)
        ∙ ap (λ ps. mul_g1 a p ∷ ps) (zip-points a t (mul_g1 t p) n)
        ∙ ap
            (λ q.
              mul_g1 a p
              ∷ map (λ r. mul_g1 a r)
                  (seconds C (zip (points C t q n) (points C t (mul_g1 t p) n))))
            (swap C L a t p)

    pub AllHold-append :
        (xs ys : List (MultipairingEquation C))
        → AllHold C L xs
        → AllHold C L ys
        → AllHold C L (xs ++ ys)
    AllHold-append [] ys h k = k
    AllHold-append (x ∷ xs) ys (h, hs) k = (h, AllHold-append xs ys hs k)

    module _ (hash_pot : PowersOfTau.HashPreimage C → G1) (hash_alpha : HashPreimage C → G1) where
      abbrev pub scaled_g2 : List Fr → List G2 → List G2
      scaled_g2 fresh olds = map (λ p. mul_g2 p.0 p.1) (zip fresh olds)

      -- The signatures that are made pass.
      pub soks-AllHold :
          (i : ℕ) (fresh : List Fr) (olds : List G2)
          → AllHold C L (
              sok_check_equations C hash_pot hash_alpha i
                (scaled_g2 fresh olds)
                olds
                (sign_alphas C hash_pot hash_alpha i fresh olds (scaled_g2 fresh olds)))
      unfolding sok_check_equations sign_alphas
      soks-AllHold i [] olds = tt
      soks-AllHold i (f ∷ fresh) [] = tt
      soks-AllHold i (f ∷ fresh) (o ∷ olds) = (
        sign-verify C hash_alpha L f o
            (record { previous_alpha_g2 = o; alpha_g2 = mul_g2 f o; index = i }),
        soks-AllHold (suc i) fresh olds,
      )

      pub sign_alphas-length :
          (i : ℕ) (fresh : List Fr) (olds : List G2)
          → length fresh ≡ length olds
          → length (sign_alphas C hash_pot hash_alpha i fresh olds (scaled_g2 fresh olds))
            ≡ length fresh
      unfolding sign_alphas
      sign_alphas-length i [] olds e = refl
      sign_alphas-length i (f ∷ fresh) [] e = absurd (omega arith)
      sign_alphas-length i (f ∷ fresh) (o ∷ olds) e =
          ap suc (sign_alphas-length (suc i) fresh olds (omega arith))

      -- The rounds of one secret pass the batches.
      pub alphas-AllHold :
          (thread_rng : ℕ → Rng) (i : ℕ) (t : Fr) (n : ℕ) (alphas : List Fr)
          → (eqs : MultipairingEquations C) × (alpha_check_equations C hash_pot hash_alpha
                {E = ContributionVerificationFailure} thread_rng i
                (points C t generator_g1 (suc n))
                (map (λ a. mul_g2 a generator_g2) alphas)
                (map (λ a. points C t (mul_g1 a generator_g1) (suc n)) alphas)
              ≡ done eqs)
            × AllHold C L eqs
      unfolding alpha_check_equations
      alphas-AllHold thread_rng i t n [] = ([], refl, tt)
      alphas-AllHold thread_rng i t n (a ∷ alphas) =
          let (eqs, found, hold) = alphas-AllHold thread_rng (suc i) t n alphas in
          let (r, accepted, holds) =
            with_shared_g2s-Holds C L {E = ContributionVerificationFailure} (thread_rng i) a
              generator_g2 _ _ (zip-points a t generator_g1 (suc n)) in
          (r.0 ∷ eqs, rw (accepted, found) refl, (holds, hold))
