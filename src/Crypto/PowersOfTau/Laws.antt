-- ===== src/Crypto/PowersOfTau/Laws.antt =====
-- Powers of tau that are made are accepted: common/src/powers_of_tau.rs.
use aptos_setup_ceremony.Base.{
  ℕ, zero, suc, ◌+◌, ◌≡◌, ◌≢◌, refl, sym, ap, subst, ◌∙◌, arith, true, false, List, [], ◌∷◌, map,
  length, replicate, drop, ==_iff, ◌==◌,
}
use aptos_setup_ceremony.Server.Error.{ContributionVerificationFailure}
use aptos_setup_ceremony.Crypto.Attempt.{done, ◌>>=◌}
use aptos_setup_ceremony.Crypto.Curve.{Curve, IsCurve}
use aptos_setup_ceremony.Crypto.MultipairingEquation.{
  MultipairingEquation, zip, with_shared_g2s, combine, equals_zero, equals_zero,
}
use aptos_setup_ceremony.Crypto.MultipairingEquation.Laws.{Holds, combine-Holds, Holds-equals_zero}
use aptos_setup_ceremony.Crypto.MultipairingEquation.Shared.{firsts, seconds, with_shared_g2s-Holds}
use aptos_setup_ceremony.Crypto.BlsSok
use aptos_setup_ceremony.Crypto.BlsSok.{BlsSok, sign, sign-verify}
use aptos_setup_ceremony.Crypto.PowersOfTau.{
  PowersOfTauParams, HashPreimage, PowersOfTauContributionInner, first_contribution, successors,
  scale, first, neighbours, generate, verify,
}

module _ (C : Curve) where
  open C use {
    Fr, G1, G2, Rng, one, mul, mul_g1, generator_g1, mul_g2, generator_g2, is_zero_g2, rand,
  }

  -- `n` points, each the multiple by `t` of the one before.
  abbrev pub points : Fr → G1 → ℕ → List G1
  points t p zero = []
  points t p (suc n) = p ∷ points t (mul_g1 t p) n

  pub points-length : (t : Fr) (p : G1) (n : ℕ) → length (points t p n) ≡ n
  points-length t p zero = refl
  points-length t p (suc n) = ap suc (points-length t (mul_g1 t p) n)

  -- The powers and the point of the secret `t`.
  pub record IsPowersOf (t : Fr) (params : PowersOfTauParams) (c : PowersOfTauContributionInner C)
      : Type 0 where
    pub powers_are : c.powers ≡ points t generator_g1 (params.max_power + 1)
    pub tau_is : c.tau_g2 ≡ mul_g2 t generator_g2

  module _ (L : IsCurve C) where
    replicate-points : (p : G1) (n : ℕ) → replicate n p ≡ points one p n
    replicate-points p zero = refl
    replicate-points p (suc n) =
        ap (λ t. p ∷ t) (replicate-points p n ∙ ap (λ q. points one q n) (sym (L.mul_g1-one p)))

    -- The first contribution is that of the secret one.
    pub first_contribution-IsPowersOf :
        (hash_text : G1) (params : PowersOfTauParams)
        → IsPowersOf one params (first_contribution C hash_text params)
    unfolding first_contribution
    first_contribution-IsPowersOf hash_text params = record {
      powers_are = replicate-points generator_g1 (params.max_power + 1);
      tau_is = sym (L.mul_g2-one generator_g2);
    }

    -- Multiples commute.
    pub swap : (a b : Fr) (p : G1) → mul_g1 a (mul_g1 b p) ≡ mul_g1 b (mul_g1 a p)
    swap a b p =
        sym (L.mul_g1-mul a b p) ∙ ap (λ x. mul_g1 x p) (L.mul-comm a b) ∙ L.mul_g1-mul b a p

    -- A step in the secret `s` over a step in the secret `t`.
    pub shift :
        (s t x : Fr) (p : G1) → mul_g1 (mul x s) (mul_g1 t p) ≡ mul_g1 (mul s t) (mul_g1 x p)
    shift s t x p =
        L.mul_g1-mul x s (mul_g1 t p)
        ∙ ap (mul_g1 x) (sym (L.mul_g1-mul s t p))
        ∙ swap x (mul s t) p

    scale-points :
        (s t x : Fr) (p : G1) (n : ℕ)
        → scale C (successors C s x n) (points t p n) ≡ points (mul s t) (mul_g1 x p) n
    unfolding successors
    scale-points s t x p zero = refl
    scale-points s t x p (suc n) =
        ap (λ ps. mul_g1 x p ∷ ps)
          (scale-points s t (mul x s) (mul_g1 t p) n
            ∙ ap (λ q. points (mul s t) q n) (shift s t x p))

    pub neighbours-points :
        (t : Fr) (p : G1) (n : ℕ)
        → firsts C (zip (drop 1 (points t p (suc n))) (points t p (suc n)))
          ≡ map (mul_g1 t) (seconds C (zip (drop 1 (points t p (suc n))) (points t p (suc n))))
    neighbours-points t p zero = refl
    neighbours-points t p (suc n) = ap (λ ps. mul_g1 t p ∷ ps) (neighbours-points t (mul_g1 t p) n)

    pub sized :
        {t : Fr} {params : PowersOfTauParams} {c : PowersOfTauContributionInner C}
        → IsPowersOf t params c
        → (length c.powers == params.max_power + 1) ≡ true
    sized {t} {params} v =
        (==_iff _ _).1
          (ap length v.powers_are ∙ points-length t generator_g1 (params.max_power + 1))

    module _ (hash_point : HashPreimage C → G1) (rng : Rng)
        (previous : PowersOfTauContributionInner C) (params : PowersOfTauParams) (t : Fr)
        (v : IsPowersOf t params previous) where
      -- A contribution to powers of `t` gives the powers of `t` times the scalar drawn.
      pub generate-IsPowersOf :
          (new : PowersOfTauContributionInner C) × (powers_fr : List Fr) × (generate C hash_point
              rng previous params
            ≡ done ((new, powers_fr), (rand rng).1))
          × IsPowersOf (mul (rand rng).0 t) params new
          × (powers_fr ≡ successors C (rand rng).0 one (params.max_power + 1))
          × (new.tau_g2 ≡ mul_g2 (rand rng).0 previous.tau_g2)
          × (new.sok
              ≡ sign C hash_point
                  (rand rng).0
                  (record { previous_tau_g2 = previous.tau_g2; tau_g2 = new.tau_g2 }))
      unfolding generate
      generate-IsPowersOf = (
        _,
        _,
        rw (sized v) refl,
        record {
          powers_are =
              ap (scale C (successors C (rand rng).0 one (params.max_power + 1))) v.powers_are
              ∙ scale-points (rand rng).0 t one generator_g1 (params.max_power + 1)
              ∙ ap (λ q. points (mul (rand rng).0 t) q (params.max_power + 1))
                  (L.mul_g1-one generator_g1);
          tau_is =
              ap (mul_g2 (rand rng).0) v.tau_is ∙ sym (L.mul_g2-mul (rand rng).0 t generator_g2);
        },
        refl,
        refl,
        refl,
      )

      -- A contribution by the scalar `s` is accepted, and its equation holds.
      pub verify-IsPowersOf :
          (new : PowersOfTauContributionInner C) (s : Fr) (rng' : Rng)
          → params.max_power ≢ 0
          → is_zero_g2 new.tau_g2 ≡ false
          → IsPowersOf (mul s t) params new
          → new.tau_g2 ≡ mul_g2 s previous.tau_g2
          → new.sok
            ≡ sign C hash_point s
                (record { previous_tau_g2 = previous.tau_g2; tau_g2 = new.tau_g2 })
          → (r : MultipairingEquation C × Rng) × (verify C hash_point new rng' previous params
              ≡ done r)
            × Holds C L r.0
      unfolding verify
      verify-IsPowersOf new s rng' big nonzero w e f = at params.max_power refl
        where
          at :
              (n : ℕ)
              → params.max_power ≡ n
              → (r : MultipairingEquation C × Rng) × (verify C hash_point new rng' previous params
                  ≡ done r)
                × Holds C L r.0
          at zero z = absurd (big z)
          at (suc n) z =
              let size : params.max_power + 1 ≡ suc (suc n) = omega arith in
              let are : new.powers ≡ points (mul s t) generator_g1 (suc (suc n)) =
                w.powers_are ∙ ap (points (mul s t) generator_g1) size in
              let (r, accepted, holds) =
                with_shared_g2s-Holds C L {E = ContributionVerificationFailure} rng' (mul s t)
                  generator_g2 _ _ (neighbours-points (mul s t) generator_g1 (suc n)) in
              let head : first C new.powers ≡ done generator_g1 = ap (first C) are in
              let pre : HashPreimage C = record {
                previous_tau_g2 = previous.tau_g2;
                tau_g2 = new.tau_g2;
              } in
              let sok : Holds C L
                  (BlsSok.verify C hash_point new.sok previous.tau_g2 new.tau_g2 pre) =
                rw f (
                  subst
                    (λ q.
                      Holds C L (
                        BlsSok.verify C hash_point (sign C hash_point s pre) previous.tau_g2 q pre))
                    (sym e) (sign-verify C hash_point L s previous.tau_g2 pre)) in
              let batch : with_shared_g2s C rng' (neighbours C new.powers)
                    (generator_g2 ∷ C.neg_g2 new.tau_g2 ∷ [])
                  ≡ done r =
                ap
                  (λ ps.
                    with_shared_g2s C rng' (neighbours C ps)
                      (generator_g2 ∷ C.neg_g2 new.tau_g2 ∷ []))
                  are
                ∙ ap
                    (λ q.
                      with_shared_g2s C rng'
                        (neighbours C (points (mul s t) generator_g1 (suc (suc n))))
                        (generator_g2 ∷ C.neg_g2 q ∷ []))
                    w.tau_is
                ∙ accepted in
              (
                combine C r.1 (BlsSok.verify C hash_point new.sok previous.tau_g2 new.tau_g2 pre)
                    r.0,
                rw (sized w, head, L.eq_g1-refl generator_g1, nonzero)
                    (ap
                      (λ a. a >>= λ x. done (
                        combine C x.1
                          (BlsSok.verify C hash_point new.sok previous.tau_g2 new.tau_g2 pre) x.0))
                      batch),
                combine-Holds C L r.1 _ r.0 sok holds,
              )

      -- The contribution that `generate` makes of powers of a secret is accepted by `verify`, for
      -- every random number generator of the verifier, and its equation equals zero. There is at
      -- least one power to check, and the new point of the second group is not zero.
      pub verify-generate :
          (rng' : Rng)
          → params.max_power ≢ 0
          → is_zero_g2 (mul_g2 (rand rng).0 previous.tau_g2) ≡ false
          → (new : PowersOfTauContributionInner C) × (powers_fr : List Fr)
            × (r : MultipairingEquation C × Rng) × (generate C hash_point rng previous params
                ≡ done ((new, powers_fr), (rand rng).1))
            × (verify C hash_point new rng' previous params ≡ done r)
            × (equals_zero C r.0 ≡ done tt)
      verify-generate rng' big nonzero =
          let (new, powers_fr, made, w, p, e, f) = generate-IsPowersOf in
          let (r, accepted, holds) =
            verify-IsPowersOf new (rand rng).0 rng' big (ap is_zero_g2 e ∙ nonzero) w e f in
          (new, powers_fr, r, made, accepted, Holds-equals_zero C L r.0 holds)
