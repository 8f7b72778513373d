-- ===== src/Crypto/Fptx/Made.antt =====
-- Batch encryption contributions that are made are accepted: common/src/fptx.rs.
use aptos_setup_ceremony.Base.{
  ℕ, suc, ◌+◌, ◌≡◌, ◌≢◌, refl, sym, ap, subst, ◌∙◌, arith, true, false, List, ◌∷◌, ◌++◌, map,
  length, ◌==◌, length-map, ==_iff,
}
use aptos_setup_ceremony.Server.Error.{ContributionVerificationFailure}
use aptos_setup_ceremony.Crypto.Attempt.{done}
use aptos_setup_ceremony.Crypto.Curve.{Curve, IsCurve}
use aptos_setup_ceremony.Crypto.MultipairingEquation.{
  MultipairingEquation, MultipairingEquations, zip, rands, compact, equals_zero,
}
use aptos_setup_ceremony.Crypto.MultipairingEquation.Laws.{
  Holds, AllHold, compact-Holds, Holds-equals_zero,
}
use aptos_setup_ceremony.Crypto.BlsSok.{BlsSok, sign}
use aptos_setup_ceremony.Crypto.PowersOfTau
use aptos_setup_ceremony.Crypto.PowersOfTau.{PowersOfTauContributionInner, successors, scale}
use aptos_setup_ceremony.Crypto.PowersOfTau.Laws.{sized, generate-IsPowersOf, verify-IsPowersOf}
use aptos_setup_ceremony.Crypto.Fptx.Params.{FptxParams}
use aptos_setup_ceremony.Crypto.Fptx.Laws.{
  IsDigestOf, rands-length, rerandomize-points, alphas-points, zip-length, all_long-points,
  AllHold-append, soks-AllHold, sign_alphas-length, alphas-AllHold, scaled_g2,
}
use aptos_setup_ceremony.Crypto.Fptx.{
  FptxContributionInner, HashPreimage, pot_params, tau_powers_randomized_fr, sizes_match,
  sign_alphas, rerandomize, generate, any_zero, all_long, sok_check_equations,
  alpha_check_equations, verify,
}

module _ (C : Curve) (L : IsCurve C) (hash_pot : PowersOfTau.HashPreimage C → C.G1)
    (hash_alpha : HashPreimage C → C.G1) (params : FptxParams) where
  open C use {
    Fr, G1, G2, Rng, one, mul, mul_g1, generator_g1, mul_g2, generator_g2, is_zero_g2, rand,
  }

  sizes_match-true :
      (c : FptxContributionInner C)
      → length c.alphas_g2 ≡ params.num_rounds
      → length c.soks_alphas ≡ params.num_rounds
      → length c.tau_powers_contrib_inner.powers ≡ params.batch_size + 1
      → length c.randomized_tau_powers_g1 ≡ params.num_rounds
      → sizes_match C c params ≡ true
  sizes_match-true c e f g h =
      rw ((==_iff _ _).1 e, (==_iff _ _).1 f, (==_iff _ _).1 g, (==_iff _ _).1 h) refl

  IsDigestOf-sizes :
      {t : Fr} {alphas : List Fr} (c : FptxContributionInner C)
      → IsDigestOf C t alphas params c
      → sizes_match C c params ≡ true
  IsDigestOf-sizes {t} {alphas} c v =
      sizes_match-true c (ap length v.alphas_are ∙ length-map alphas _ ∙ v.rounds) v.soks
        ((==_iff _ _).0 (sized C L v.pot))
        (ap length v.randomized_are ∙ length-map alphas _ ∙ v.rounds)

  module _ (rng : Rng) (previous : FptxContributionInner C) (t : Fr) (alphas : List Fr)
      (v : IsDigestOf C t alphas params previous) where
    abbrev fresh : List Fr
    fresh = (rands C params.num_rounds rng).0

    abbrev s : Fr
    s = (rand (rands C params.num_rounds rng).1).0

    abbrev old_pot : PowersOfTauContributionInner C
    old_pot = previous.tau_powers_contrib_inner

    abbrev products : List Fr
    products = map (λ p. mul p.0 p.1) (zip fresh alphas)

    -- What `generate` has made: a contribution by the secrets `s` and `fresh`.
    pub record IsMade (new : FptxContributionInner C) : Type 0 where
      pub digest : IsDigestOf C (mul s t) products params new
      pub tau_step : new.tau_powers_contrib_inner.tau_g2 ≡ mul_g2 s old_pot.tau_g2
      pub tau_sok :
          new.tau_powers_contrib_inner.sok
          ≡ sign C hash_pot s (record {
            previous_tau_g2 = old_pot.tau_g2;
            tau_g2 = new.tau_powers_contrib_inner.tau_g2;
          })
      pub alphas_step : new.alphas_g2 ≡ scaled_g2 C L hash_pot hash_alpha fresh previous.alphas_g2
      pub soks_made :
          new.soks_alphas
          ≡ sign_alphas C hash_pot hash_alpha 0 fresh previous.alphas_g2
              (scaled_g2 C L hash_pot hash_alpha fresh previous.alphas_g2)

    -- The new contribution, with its powers of tau and their scalars.
    abbrev with_pot : PowersOfTauContributionInner C → List Fr → FptxContributionInner C
    with_pot pot powers_fr = record {
      tau_powers_contrib_inner = pot;
      alphas_g2 = scaled_g2 C L hash_pot hash_alpha fresh previous.alphas_g2;
      soks_alphas =
          sign_alphas C hash_pot hash_alpha 0 fresh previous.alphas_g2
            (scaled_g2 C L hash_pot hash_alpha fresh previous.alphas_g2);
      randomized_tau_powers_g1 =
          rerandomize C hash_pot hash_alpha (map (λ a. map (λ b. mul a b) powers_fr) fresh)
            previous.randomized_tau_powers_g1;
    }

    fresh-length : length fresh ≡ length alphas
    fresh-length = rands-length C L params.num_rounds rng ∙ sym v.rounds

    pub generate-IsMade :
        (new : FptxContributionInner C) × (rng' : Rng) × (generate C hash_pot hash_alpha rng
            previous params
          ≡ done (new, rng'))
        × IsMade new
    unfolding generate tau_powers_randomized_fr
    generate-IsMade =
        let (pot, powers_fr, made, w, p, e, f) =
          generate-IsPowersOf C L hash_pot (rands C params.num_rounds rng).1 old_pot
            (pot_params C params) t v.pot in
        let rounds : (params.num_rounds == length fresh) ≡ true =
          (==_iff _ _).1 (sym (rands-length C L params.num_rounds rng)) in
        (
          with_pot pot powers_fr,
          (rand (rands C params.num_rounds rng).1).1,
          rw (IsDigestOf-sizes previous v, made, rounds) refl,
          record {
            digest = record {
              rounds = zip-length C L fresh alphas fresh-length ∙ v.rounds;
              pot = w;
              alphas_are =
                  ap (scaled_g2 C L hash_pot hash_alpha fresh) v.alphas_are
                  ∙ alphas-points C L fresh alphas;
              soks =
                  sign_alphas-length C L hash_pot hash_alpha 0 fresh previous.alphas_g2
                    (fresh-length ∙ sym (ap length v.alphas_are ∙ length-map alphas _))
                  ∙ rands-length C L params.num_rounds rng;
              randomized_are =
                  ap
                    (λ xs.
                      rerandomize C hash_pot hash_alpha (map (λ a. map (λ b. mul a b) xs) fresh)
                        previous.randomized_tau_powers_g1)
                    p
                  ∙ ap
                      (rerandomize C hash_pot hash_alpha (
                        map (λ a. map (λ b. mul a b) (successors C s one (params.batch_size + 1)))
                          fresh))
                      v.randomized_are
                  ∙ rerandomize-points C L hash_pot hash_alpha s t (params.batch_size + 1) fresh
                      alphas;
            };
            tau_step = e;
            tau_sok = f;
            alphas_step = refl;
            soks_made = refl;
          },
        )

    -- The signature checks of what was made hold.
    soks_hold :
        (new : FptxContributionInner C)
        → IsMade new
        → AllHold C L (
            sok_check_equations C hash_pot hash_alpha 0 new.alphas_g2 previous.alphas_g2
              new.soks_alphas)
    soks_hold new m =
        subst
          (λ (p : List G2 × List (BlsSok C)).
            AllHold C L (sok_check_equations C hash_pot hash_alpha 0 p.0 previous.alphas_g2 p.1))
          (λ i. (sym m.alphas_step i, sym m.soks_made i))
          (soks-AllHold C L hash_pot hash_alpha 0 fresh previous.alphas_g2)

    -- So do the batches of the rounds.
    rounds_hold :
        (new : FptxContributionInner C) (thread_rng : ℕ → Rng)
        → IsMade new
        → (eqs : MultipairingEquations C) × (alpha_check_equations C hash_pot hash_alpha
              {E = ContributionVerificationFailure} thread_rng 0 new.tau_powers_contrib_inner.powers
              new.alphas_g2 new.randomized_tau_powers_g1
            ≡ done eqs)
          × AllHold C L eqs
    rounds_hold new thread_rng m =
        let (eqs, found, hold) =
          alphas-AllHold C L hash_pot hash_alpha thread_rng 0 (mul s t) params.batch_size
            products in
        let size : params.batch_size + 1 ≡ suc params.batch_size = omega arith in
        let d = m.digest in
        (eqs, rw (d.pot.powers_are, d.alphas_are, d.randomized_are, size) found, hold)

    pub verify-IsMade :
        (new : FptxContributionInner C) (rng' : Rng) (thread_rng : ℕ → Rng)
        → params.batch_size ≢ 0
        → is_zero_g2 new.tau_powers_contrib_inner.tau_g2 ≡ false
        → any_zero C hash_pot hash_alpha new.alphas_g2 ≡ false
        → IsMade new
        → (r : MultipairingEquation C × Rng) × (verify C hash_pot hash_alpha new rng' thread_rng
              previous params
            ≡ done r)
          × Holds C L r.0
    unfolding verify
    verify-IsMade new rng' thread_rng big nonzero nonzeros m =
        let (pot, accepted, holds) =
          verify-IsPowersOf C L hash_pot (rands C params.num_rounds rng).1 old_pot
            (pot_params C params) t v.pot new.tau_powers_contrib_inner s rng' big nonzero
            m.digest.pot m.tau_step m.tau_sok in
        let (eqs, found, hold) = rounds_hold new thread_rng m in
        let long : all_long C hash_pot hash_alpha (params.batch_size + 1)
              new.randomized_tau_powers_g1
            ≡ true =
          ap (all_long C hash_pot hash_alpha (params.batch_size + 1)) m.digest.randomized_are
          ∙ all_long-points C L hash_pot hash_alpha (mul s t) (params.batch_size + 1) products in
        let soks =
          sok_check_equations C hash_pot hash_alpha 0 new.alphas_g2 previous.alphas_g2
            new.soks_alphas in
        (
          compact C pot.1 ((pot.0 ∷ soks) ++ eqs),
          rw (IsDigestOf-sizes new m.digest, nonzeros, long, accepted, found) refl,
          compact-Holds C L pot.1 ((pot.0 ∷ soks) ++ eqs)
              (holds, AllHold-append C L soks eqs (soks_hold new m) hold),
        )

    -- The contribution that `generate` makes of the digest of secrets is accepted by `verify`, for all
    -- random number generators of the verifier and its workers, and its equation equals zero. There is
    -- at least one power to check, and none of the new points of the second group is zero.
    pub verify-generate_fptx :
        (rng' : Rng) (thread_rng : ℕ → Rng)
        → params.batch_size ≢ 0
        → is_zero_g2 (mul_g2 s old_pot.tau_g2) ≡ false
        → any_zero C hash_pot hash_alpha
            (scaled_g2 C L hash_pot hash_alpha fresh previous.alphas_g2)
          ≡ false
        → (new : FptxContributionInner C) × (rng'' : Rng) × (r : MultipairingEquation C × Rng)
          × (generate C hash_pot hash_alpha rng previous params ≡ done (new, rng''))
          × (verify C hash_pot hash_alpha new rng' thread_rng previous params ≡ done r)
          × (equals_zero C r.0 ≡ done tt)
    verify-generate_fptx rng' thread_rng big nonzero nonzeros =
        let (new, rng'', made, m) = generate-IsMade in
        let (r, accepted, holds) =
          verify-IsMade new rng' thread_rng big (ap is_zero_g2 m.tau_step ∙ nonzero)
            (ap (any_zero C hash_pot hash_alpha) m.alphas_step ∙ nonzeros) m in
        (new, rng'', r, made, accepted, Holds-equals_zero C L r.0 holds)
