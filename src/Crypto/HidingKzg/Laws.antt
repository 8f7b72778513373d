-- ===== src/Crypto/HidingKzg/Laws.antt =====
-- Hiding KZG contributions that are made are accepted: common/src/hiding_kzg.rs.
use aptos_setup_ceremony.Base.{◌≡◌, ◌≢◌, refl, sym, ap, subst, ◌∙◌, false, List, [], ◌∷◌}
use aptos_setup_ceremony.Crypto.Attempt.{done}
use aptos_setup_ceremony.Crypto.Curve.{Curve, IsCurve}
use aptos_setup_ceremony.Crypto.MultipairingEquation.{
  MultipairingEquation, simple, compact, equals_zero,
}
use aptos_setup_ceremony.Crypto.MultipairingEquation.Laws.{Holds, compact-Holds, Holds-equals_zero}
use aptos_setup_ceremony.Crypto.BlsSok
use aptos_setup_ceremony.Crypto.BlsSok.{BlsSok, sign, sign-verify, multi_pairing-two}
use aptos_setup_ceremony.Crypto.PowersOfTau
use aptos_setup_ceremony.Crypto.PowersOfTau.{PowersOfTauParams, PowersOfTauContributionInner}
use aptos_setup_ceremony.Crypto.PowersOfTau.Laws.{
  IsPowersOf, sized, generate-IsPowersOf, verify-IsPowersOf,
}
use aptos_setup_ceremony.Crypto.HidingKzg.{
  HidingKzgContributionInner, HashPreimage, generate, verify,
}

module _ (C : Curve) where
  open C use {
    Fr, G1, G2, Rng, one, mul, mul_g1, generator_g1, neg_g2, mul_g2, generator_g2, is_zero_g2, rand,
  }

  -- The points of the secrets `t` and `x`.
  pub record IsKeyOf (t x : Fr) (params : PowersOfTauParams) (c : HidingKzgContributionInner C)
      : Type 0 where
    pub pot : IsPowersOf C t params c.tau_powers_contrib_inner
    pub xi_g1_is : c.xi_g1 ≡ mul_g1 x generator_g1
    pub xi_g2_is : c.xi_g2 ≡ mul_g2 x generator_g2

  module _ (L : IsCurve C) where
    -- The two points of `xi` pair alike.
    consistent :
        (x : Fr)
        → Holds C L (
            simple C
              (mul_g1 x generator_g1 ∷ generator_g1 ∷ [])
              (neg_g2 generator_g2 ∷ mul_g2 x generator_g2 ∷ []))
    consistent x = (
      refl,
      multi_pairing-two C L (mul_g1 x generator_g1) generator_g1 (neg_g2 generator_g2)
            (mul_g2 x generator_g2)
          ∙ ap (λ a. L.add_gt a (L.pairing generator_g1 (mul_g2 x generator_g2)))
              (L.pairing-neg_g2 (mul_g1 x generator_g1) generator_g2
                ∙ ap L.neg_gt (L.pairing-mul_g1 x generator_g1 generator_g2))
          ∙ ap (L.add_gt (L.neg_gt (L.mul_gt x (L.pairing generator_g1 generator_g2))))
              (L.pairing-mul_g2 x generator_g1 generator_g2)
          ∙ L.neg-add_gt (L.mul_gt x (L.pairing generator_g1 generator_g2)),
    )

    module _ (hash_pot : PowersOfTau.HashPreimage C → G1) (hash_xi : HashPreimage C → G1)
        (rng : Rng) (previous : HidingKzgContributionInner C) (params : PowersOfTauParams)
        (t x : Fr) (v : IsKeyOf t x params previous) where
      abbrev s : Fr
      s = (rand rng).0

      abbrev y : Fr
      y = (rand (rand rng).1).0

      abbrev preimage : HidingKzgContributionInner C → HashPreimage C
      preimage new = record {
        previous_xi_g1 = previous.xi_g1;
        previous_xi_g2 = previous.xi_g2;
        new_xi_g2 = new.xi_g2;
      }

      -- The new contribution, with its powers of tau.
      abbrev with_pot : PowersOfTauContributionInner C → HidingKzgContributionInner C
      with_pot pot = record {
        tau_powers_contrib_inner = pot;
        xi_g1 = mul_g1 y previous.xi_g1;
        xi_g2 = mul_g2 y previous.xi_g2;
        sok_xi = sign C hash_xi y (record {
          previous_xi_g1 = previous.xi_g1;
          previous_xi_g2 = previous.xi_g2;
          new_xi_g2 = mul_g2 y previous.xi_g2;
        });
      }

      -- The equations that `verify` batches.
      abbrev equations :
          HidingKzgContributionInner C → MultipairingEquation C → List (MultipairingEquation C)
      equations new pot =
          pot
          ∷ BlsSok.verify C hash_xi new.sok_xi previous.xi_g2 new.xi_g2 (preimage new)
          ∷ simple C (new.xi_g1 ∷ generator_g1 ∷ []) (neg_g2 generator_g2 ∷ new.xi_g2 ∷ [])
          ∷ []

      -- What `generate` has made: a contribution by the secrets `s` and `y`.
      pub record IsMade (new : HidingKzgContributionInner C) : Type 0 where
        pub key : IsKeyOf (mul s t) (mul y x) params new
        pub tau_step :
            new.tau_powers_contrib_inner.tau_g2 ≡ mul_g2 s previous.tau_powers_contrib_inner.tau_g2
        pub tau_sok :
            new.tau_powers_contrib_inner.sok
            ≡ sign C hash_pot s (record {
              previous_tau_g2 = previous.tau_powers_contrib_inner.tau_g2;
              tau_g2 = new.tau_powers_contrib_inner.tau_g2;
            })
        pub xi_step : new.xi_g2 ≡ mul_g2 y previous.xi_g2
        pub xi_sok : new.sok_xi ≡ sign C hash_xi y (preimage new)

      pub generate-IsMade :
          (new : HidingKzgContributionInner C) × (secrets : List Fr × Fr) × (rng' : Rng) × (generate
              C hash_pot hash_xi rng previous params
            ≡ done ((new, secrets), rng'))
          × IsMade new
      unfolding generate
      generate-IsMade =
          let (pot, powers_fr, made, w, p, e, f) =
            generate-IsPowersOf C L hash_pot rng previous.tau_powers_contrib_inner params t v.pot in
          (
            with_pot pot,
            (powers_fr, y),
            (rand (rand rng).1).1,
            rw (sized C L v.pot, made) refl,
            record {
              key = record {
                pot = w;
                xi_g1_is = ap (mul_g1 y) v.xi_g1_is ∙ sym (L.mul_g1-mul y x generator_g1);
                xi_g2_is = ap (mul_g2 y) v.xi_g2_is ∙ sym (L.mul_g2-mul y x generator_g2);
              };
              tau_step = e;
              tau_sok = f;
              xi_step = refl;
              xi_sok = refl;
            },
          )

      pub verify-IsMade :
          (new : HidingKzgContributionInner C) (rng' : Rng)
          → params.max_power ≢ 0
          → is_zero_g2 new.tau_powers_contrib_inner.tau_g2 ≡ false
          → is_zero_g2 new.xi_g2 ≡ false
          → IsMade new
          → (r : MultipairingEquation C × Rng) × (verify C hash_pot hash_xi new rng' previous params
              ≡ done r)
            × Holds C L r.0
      unfolding verify
      verify-IsMade new rng' big nonzero nonzero' m =
          let (pot, accepted, holds) =
            verify-IsPowersOf C L hash_pot rng previous.tau_powers_contrib_inner params t v.pot
              new.tau_powers_contrib_inner s rng' big nonzero m.key.pot m.tau_step m.tau_sok in
          let sok : Holds C L
              (BlsSok.verify C hash_xi new.sok_xi previous.xi_g2 new.xi_g2 (preimage new)) =
            rw m.xi_sok (
              subst
                (λ q. Holds C L (
                  BlsSok.verify C hash_xi (sign C hash_xi y (preimage new)) previous.xi_g2 q
                    (preimage new)))
                (sym m.xi_step) (sign-verify C hash_xi L y previous.xi_g2 (preimage new))) in
          let consistency : Holds C L
              (simple C (new.xi_g1 ∷ generator_g1 ∷ []) (neg_g2 generator_g2 ∷ new.xi_g2 ∷ [])) =
            rw (m.key.xi_g1_is, m.key.xi_g2_is) (consistent (mul y x)) in
          (
            compact C pot.1 (equations new pot.0),
            rw (sized C L m.key.pot, nonzero', accepted) refl,
            compact-Holds C L pot.1 (equations new pot.0) (holds, (sok, (consistency, tt))),
          )

      -- The contribution that `generate` makes of a key of secrets is accepted by `verify`, for every
      -- random number generator of the verifier, and its equation equals zero. There is at least one
      -- power to check, and the two new points of the second group are not zero.
      pub verify-generate_kzg :
          (rng' : Rng)
          → params.max_power ≢ 0
          → is_zero_g2 (mul_g2 s previous.tau_powers_contrib_inner.tau_g2) ≡ false
          → is_zero_g2 (mul_g2 y previous.xi_g2) ≡ false
          → (new : HidingKzgContributionInner C) × (secrets : List Fr × Fr) × (rng'' : Rng)
            × (r : MultipairingEquation C × Rng) × (generate C hash_pot hash_xi rng previous params
                ≡ done ((new, secrets), rng''))
            × (verify C hash_pot hash_xi new rng' previous params ≡ done r)
            × (equals_zero C r.0 ≡ done tt)
      verify-generate_kzg rng' big nonzero nonzero' =
          let (new, secrets, rng'', made, m) = generate-IsMade in
          let (r, accepted, holds) =
            verify-IsMade new rng' big (ap is_zero_g2 m.tau_step ∙ nonzero)
              (ap is_zero_g2 m.xi_step ∙ nonzero') m in
          (new, secrets, rng'', r, made, accepted, Holds-equals_zero C L r.0 holds)
