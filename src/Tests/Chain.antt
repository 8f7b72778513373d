-- ===== src/Tests/Chain.antt =====
-- The chain of contributions at a concrete input: powers of tau over the field of three elements.
use text.Mathlib.Text.{◌==◌}
use text.Mathlib.TextEquality.{eq_iff}
use aptos_setup_ceremony.Base.{
  ℕ, ◌≡◌, refl, ap, ◌∙◌, Bool, ◌&&◌, true, false, none, List, [], ◌∷◌, arith, length,
}
use aptos_setup_ceremony.Contributor.{Contributor}
use aptos_setup_ceremony.Crypto.Attempt.{done}
use aptos_setup_ceremony.Crypto.MultipairingEquation.{
  with_shared_g2s, combined, column, rands, combine, scalar_mul, equals_zero,
}
use aptos_setup_ceremony.Crypto.BlsSok
use aptos_setup_ceremony.Crypto.PowersOfTau
use aptos_setup_ceremony.Crypto.PowersOfTau.{PowersOfTauParams, PowersOfTauContributionInner}
use aptos_setup_ceremony.Crypto.MultipairingEquation.Laws.{Holds-equals_zero}
use aptos_setup_ceremony.Crypto.PowersOfTau.Laws.{
  IsPowersOf, first_contribution-IsPowersOf, generate-IsPowersOf, verify-IsPowersOf,
}
use aptos_setup_ceremony.Crypto.Contribution.{
  ContributionInner, Contribution, build_previous_hashes, generate, verify,
}
use aptos_setup_ceremony.Crypto.Contribution.Laws.{
  Accepted, Accepted-history, history, IsComplete, verify-generate_contribution,
}
use aptos_setup_ceremony.Tests.Ceremony.{alice, same_key, same_key_iff}
use aptos_setup_ceremony.Tests.Ternary.{Trit, unit, minus, ternary, ternary-IsCurve}

abbrev same_hash : Contributor × ℕ → Contributor × ℕ → Bool
same_hash a b =
    a.0.name == b.0.name
    && (a.0.email == b.0.email)
    && (same_key a.0.verifying_key b.0.verifying_key)
    && (same_key a.1 b.1)

abbrev pub same_hashes : List (Contributor × ℕ) → List (Contributor × ℕ) → Bool
same_hashes [] [] = true
same_hashes (x ∷ xs) (y ∷ ys) = same_hash x y && same_hashes xs ys
same_hashes _ _ = false

same_hash_iff :
    (a b : Contributor × ℕ) → (same_hash a b ≡ true → a ≡ b) × (a ≡ b → same_hash a b ≡ true)
same_hash_iff a b = (
  λ h. ground (
    arith,
    (eq_iff a.0.name b.0.name).0,
    (eq_iff a.0.email b.0.email).0,
    (same_key_iff a.0.verifying_key b.0.verifying_key).0,
    (same_key_iff a.1 b.1).0,
    h,
  ),
  λ e. ground (
    arith,
    (eq_iff a.0.name b.0.name).1,
    (eq_iff a.0.email b.0.email).1,
    (same_key_iff a.0.verifying_key b.0.verifying_key).1,
    (same_key_iff a.1 b.1).1,
    e,
  ),
)

pub same_hashes_iff :
    (xs ys : List (Contributor × ℕ))
    → (same_hashes xs ys ≡ true → xs ≡ ys) × (xs ≡ ys → same_hashes xs ys ≡ true)
same_hashes_iff [] [] = (λ h. refl, λ e. refl)
same_hashes_iff [] (y ∷ ys) = (λ h. ground arith, λ e. ground arith)
same_hashes_iff (x ∷ xs) [] = (λ h. ground arith, λ e. ground arith)
same_hashes_iff (x ∷ xs) (y ∷ ys) = (
  λ h. ground (arith, same_hash_iff x y, same_hashes_iff xs ys, h),
  λ e. ground (arith, same_hash_iff x y, same_hashes_iff xs ys, e),
)

-- Powers of tau, with a hash of the curve that is constant.
abbrev pub powers_inner : ContributionInner ternary
powers_inner = record {
  Inner = PowersOfTauContributionInner ternary;
  Params = PowersOfTauParams;
  Secrets = List Trit;
  Output = Unit {0};
  first_contribution = λ E params. done (PowersOfTau.first_contribution ternary unit params);
  generate = PowersOfTau.generate ternary (λ pre. unit);
  verify = PowersOfTau.verify ternary (λ pre. unit);
  output = λ inner. tt;
}

abbrev pub four : PowersOfTauParams
four = record { max_power = 3 }

-- Powers of some secret.
abbrev pub IsPowers : PowersOfTauContributionInner ternary → Type 0
IsPowers inner = (t : Trit) × IsPowersOf ternary t four inner

abbrev pub IsSecret : Trit → PowersOfTauContributionInner ternary → Type 0
IsSecret rng inner = ternary.is_zero_g2 (ternary.mul_g2 rng inner.tau_g2) ≡ false

abbrev pub hash : Contribution ternary powers_inner → ℕ
hash c = length c.previous_hashes

pub IsPowers-IsComplete :
    IsComplete ternary powers_inner hash same_hashes same_hashes_iff four
      (PowersOfTau.first_contribution ternary unit four)
      IsPowers
      IsSecret
IsPowers-IsComplete = record {
  first_made = λ E. refl;
  first_valid = (unit, first_contribution-IsPowersOf ternary ternary-IsCurve unit four);
  made = λ rng previous valid secret.
      let (t, v) = valid in
      let (new, powers_fr, made, w, p, e, f) =
        generate-IsPowersOf ternary ternary-IsCurve (λ pre. unit) rng previous four t v in
      (
        new,
        powers_fr,
        rng,
        made,
        (ternary.mul rng t, w),
        λ u.
            let (r, accepted, holds) =
              verify-IsPowersOf ternary ternary-IsCurve (λ pre. unit) rng previous four t v new rng
                u (λ z. ground arith) (ap ternary.is_zero_g2 e ∙ secret) w e f in
            (r, accepted, Holds-equals_zero ternary ternary-IsCurve r.0 holds),
      );
}

verify-generate_contribution_example :
    (new : Contribution ternary powers_inner) × (rng' : Trit) × (generate ternary powers_inner hash
        same_hashes minus none alice four
      ≡ done (new, rng'))
    × IsPowers new.inner
    × (new.contributor ≡ alice)
    × ((v : Trit) → verify ternary powers_inner hash same_hashes new v none four ≡ done tt)
unfolding PowersOfTau.first_contribution
verify-generate_contribution_example =
    verify-generate_contribution ternary powers_inner hash same_hashes same_hashes_iff four
      (PowersOfTau.first_contribution ternary unit four) IsPowers IsSecret IsPowers-IsComplete minus
      none alice IsPowers-IsComplete.first_valid refl

-- Two contributions, both with the secret minus one.
abbrev pub contribution_one : Contribution ternary powers_inner
contribution_one = record {
  inner = record {
    powers = unit ∷ minus ∷ unit ∷ minus ∷ [];
    tau_g2 = minus;
    sok = record { sig = minus };
  };
  contributor = alice;
  previous_hashes = [];
}

abbrev contribution_two : Contribution ternary powers_inner
contribution_two = record {
  inner = record {
    powers = unit ∷ unit ∷ unit ∷ unit ∷ [];
    tau_g2 = unit;
    sok = record { sig = minus };
  };
  contributor = alice;
  previous_hashes = (alice, 0) ∷ [];
}

two-Accepted :
    Accepted ternary powers_inner hash same_hashes same_hashes_iff four contribution_two
      (contribution_one ∷ [])
unfolding verify build_previous_hashes PowersOfTau.verify PowersOfTau.first_contribution
    BlsSok.verify with_shared_g2s combined column rands combine scalar_mul equals_zero
two-Accepted = ((unit, refl), (refl, unit, refl))

Accepted-history_example :
    contribution_two.previous_hashes
    ≡ history ternary powers_inner hash same_hashes same_hashes_iff four (contribution_one ∷ [])
Accepted-history_example =
    Accepted-history ternary powers_inner hash same_hashes same_hashes_iff four contribution_two
      (contribution_one ∷ []) two-Accepted
