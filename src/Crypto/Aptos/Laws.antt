-- ===== src/Crypto/Aptos/Laws.antt =====
-- The ceremony's inner contribution keeps the contract of a chain's inner contributions:
-- common/src/aptos.rs, and the trait of common/src/contribution.rs.
use aptos_setup_ceremony.Base.{ℕ, ◌≡◌, ◌≢◌, refl, sym, false, true, Bool, List, [], ◌∷◌, replicate}
use aptos_setup_ceremony.Contributor.{Contributor}
use aptos_setup_ceremony.Crypto.Attempt.{done, ◌>>=◌}
use aptos_setup_ceremony.Crypto.Curve.{Curve, IsCurve}
use aptos_setup_ceremony.Crypto.MultipairingEquation.{MultipairingEquation, compact, equals_zero}
use aptos_setup_ceremony.Crypto.MultipairingEquation.Laws.{compact-Holds, Holds-equals_zero}
use aptos_setup_ceremony.Crypto.PowersOfTau
use aptos_setup_ceremony.Crypto.PowersOfTau.Laws.{first_contribution-IsPowersOf}
use aptos_setup_ceremony.Crypto.Fptx
use aptos_setup_ceremony.Crypto.Fptx.{any_zero}
use aptos_setup_ceremony.Crypto.Fptx.Laws.{IsDigestOf}
use aptos_setup_ceremony.Crypto.Fptx.Made
use aptos_setup_ceremony.Crypto.Fptx.First.{first_contribution-IsDigestOf}
use aptos_setup_ceremony.Crypto.HidingKzg
use aptos_setup_ceremony.Crypto.HidingKzg.Laws
use aptos_setup_ceremony.Crypto.HidingKzg.Laws.{IsKeyOf}
use aptos_setup_ceremony.Crypto.Contribution.{ContributionInner, Contribution}
use aptos_setup_ceremony.Crypto.Contribution.Laws.{IsComplete}
use aptos_setup_ceremony.Crypto.Aptos.{
  AptosParams, AptosContributionInner, first_contribution, generate, verify,
}

module _ (C : Curve) (L : IsCurve C) (hash_pot : PowersOfTau.HashPreimage C → C.G1)
    (hash_alpha : Fptx.HashPreimage C → C.G1) (hash_xi : HidingKzg.HashPreimage C → C.G1)
    (params : AptosParams) where
  open C use {Fr, G1, G2, Rng, one, mul_g1, generator_g1, mul_g2, generator_g2, is_zero_g2}

  -- Digests and a key of some secrets.
  pub record IsSetup (c : AptosContributionInner C) : Type 0 where
    pub tau : Fr
    pub alphas : List Fr
    pub digest : IsDigestOf C tau alphas params.fptx c.fptx
    pub trapdoor : Fr
    pub xi : Fr
    pub key : IsKeyOf C trapdoor xi params.hiding_kzg c.hiding_kzg

  -- None of the points that `verify` tests is zero.
  pub record IsNontrivial (c : AptosContributionInner C) : Type 0 where
    pub fptx_tau : is_zero_g2 c.fptx.tau_powers_contrib_inner.tau_g2 ≡ false
    pub fptx_alphas : any_zero C hash_pot hash_alpha c.fptx.alphas_g2 ≡ false
    pub kzg_tau : is_zero_g2 c.hiding_kzg.tau_powers_contrib_inner.tau_g2 ≡ false
    pub kzg_xi : is_zero_g2 c.hiding_kzg.xi_g2 ≡ false

  -- The first contribution is made without a panic, of the secret one everywhere.
  pub first_contribution-IsSetup :
      (hash_text : G1)
      → (c : AptosContributionInner C) × ((E : Type 0)
          → first_contribution C {E = E} hash_text params ≡ done c)
        × IsSetup c
  unfolding first_contribution HidingKzg.first_contribution
  first_contribution-IsSetup hash_text =
      let (fptx, made, v) = first_contribution-IsDigestOf C L hash_text params.fptx in
      (
        record {
          fptx = fptx;
          hiding_kzg = HidingKzg.first_contribution C hash_text params.hiding_kzg;
        },
        (λ E. rw (made E) refl),
        record {
          tau = one;
          alphas = replicate params.fptx.num_rounds one;
          digest = v;
          trapdoor = one;
          xi = one;
          key = record {
            pot = first_contribution-IsPowersOf C L hash_text params.hiding_kzg;
            xi_g1_is = sym (L.mul_g1-one generator_g1);
            xi_g2_is = sym (L.mul_g2-one generator_g2);
          };
        },
      )

  -- What `generate` makes of a setup, for every random number generator, is a setup. Where there are
  -- powers to check and none of its points is zero, `verify` accepts it with the one before it, for all
  -- random number generators of the verifier and its workers, and its equation equals zero.
  pub verify-generate_aptos :
      (rng : Rng) (previous : AptosContributionInner C)
      → IsSetup previous
      → params.fptx.batch_size ≢ 0
      → params.hiding_kzg.max_power ≢ 0
      → (new : AptosContributionInner C) × (rng' : Rng) × (generate C hash_pot hash_alpha hash_xi
            rng previous params
          ≡ done (new, rng'))
        × IsSetup new
        × (IsNontrivial new
            → (v : Rng) (thread_rng : ℕ → Rng)
            → (r : MultipairingEquation C × Rng) × (verify C hash_pot hash_alpha hash_xi new v
                  thread_rng previous params
                ≡ done r)
              × (equals_zero C r.0 ≡ done tt))
  unfolding generate verify
  verify-generate_aptos rng previous w big big' =
      let (fptx, rng', made, m) =
        Fptx.Made.generate-IsMade C L hash_pot hash_alpha params.fptx rng previous.fptx w.tau
          w.alphas w.digest in
      let (kzg, secrets, rng'', made', m') =
        HidingKzg.Laws.generate-IsMade C L hash_pot hash_xi rng' previous.hiding_kzg
          params.hiding_kzg w.trapdoor w.xi w.key in
      (
        record { fptx = fptx; hiding_kzg = kzg },
        rng'',
        rw (made, made') refl,
        record {
          tau = C.mul _ w.tau;
          alphas = _;
          digest = m.digest;
          trapdoor = C.mul _ w.trapdoor;
          xi = C.mul _ w.xi;
          key = m'.key;
        },
        λ n v thread_rng.
            let (r, accepted, holds) =
              Fptx.Made.verify-IsMade C L hash_pot hash_alpha params.fptx rng previous.fptx w.tau
                w.alphas w.digest fptx v thread_rng big n.fptx_tau n.fptx_alphas m in
            let (r', accepted', holds') =
              HidingKzg.Laws.verify-IsMade C L hash_pot hash_xi rng' previous.hiding_kzg
                params.hiding_kzg w.trapdoor w.xi w.key kzg r.1 big' n.kzg_tau n.kzg_xi m' in
            (
              compact C r'.1 (r.0 ∷ r'.0 ∷ []),
              rw (accepted, accepted') refl,
              Holds-equals_zero C L _
                  (compact-Holds C L r'.1 (r.0 ∷ r'.0 ∷ []) (holds, (holds', tt))),
            ),
      )

  -- The trait's implementation, with the generators of the verifier's workers fixed.
  abbrev pub aptos_inner :
      {K : Type 0} → (AptosContributionInner C → K) → G1 → (ℕ → Rng) → ContributionInner C
  aptos_inner {K} output hash_text thread_rng = record {
    Inner = AptosContributionInner C;
    Params = AptosParams;
    Secrets = Unit {0};
    Output = K;
    first_contribution = λ E params. first_contribution C hash_text params;
    generate = λ rng previous params.
        generate C hash_pot hash_alpha hash_xi rng previous params >>= λ made.
        done ((made.0, tt), made.1);
    verify = λ self rng previous params.
        verify C hash_pot hash_alpha hash_xi self rng thread_rng previous params;
    output = output;
  }

  -- The draws that `verify` refuses no point of.
  abbrev pub IsSecret : Rng → AptosContributionInner C → Type 0
  IsSecret rng previous =
      (new : AptosContributionInner C) (rng' : Rng)
      → generate C hash_pot hash_alpha hash_xi rng previous params ≡ done (new, rng')
      → IsNontrivial new

  -- With powers to check, the ceremony's inner contribution keeps the contract of a chain: its first
  -- contribution is made and is a setup, and what it makes of a setup is a setup and passes the
  -- verification, unless it has drawn a point that is zero.
  pub aptos_inner-IsComplete :
      {K : Type 0} (output : AptosContributionInner C → K) (hash_text : G1) (thread_rng : ℕ → Rng)
      (hash : Contribution C (aptos_inner output hash_text thread_rng) → ℕ)
      (eq_hashes : List (Contributor × ℕ) → List (Contributor × ℕ) → Bool)
      (eq_hashes_iff : (xs ys : List (Contributor × ℕ))
        → (eq_hashes xs ys ≡ true → xs ≡ ys) × (xs ≡ ys → eq_hashes xs ys ≡ true))
      → params.fptx.batch_size ≢ 0
      → params.hiding_kzg.max_power ≢ 0
      → (first : AptosContributionInner C) × IsComplete C
          (aptos_inner output hash_text thread_rng)
          hash
          eq_hashes
          eq_hashes_iff
          params
          first
          IsSetup
          IsSecret
  aptos_inner-IsComplete output hash_text thread_rng hash eq_hashes eq_hashes_iff big big' =
      let (c, made, v) = first_contribution-IsSetup hash_text in
      (
        c,
        record {
          first_made = made;
          first_valid = v;
          made = λ rng previous w secret.
              let (new, rng', made, w', passes) = verify-generate_aptos rng previous w big big' in
              (new, tt, rng', rw made refl, w', λ u. passes (secret new rng' made) u thread_rng);
        },
      )
