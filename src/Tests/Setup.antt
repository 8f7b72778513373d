-- ===== src/Tests/Setup.antt =====
-- The ceremony's inner contribution at a concrete input, over the field of three elements.
use aptos_setup_ceremony.Base.{ℕ, ◌≡◌, refl, List, [], ◌∷◌, arith, replicate}
use aptos_setup_ceremony.Crypto.Attempt.{done}
use aptos_setup_ceremony.Crypto.MultipairingEquation.{MultipairingEquation, equals_zero, rands}
use aptos_setup_ceremony.Crypto.PowersOfTau
use aptos_setup_ceremony.Crypto.PowersOfTau.{PowersOfTauParams}
use aptos_setup_ceremony.Crypto.PowersOfTau.Laws.{first_contribution-IsPowersOf}
use aptos_setup_ceremony.Crypto.Fptx
use aptos_setup_ceremony.Crypto.Fptx.{FptxContributionInner, tau_powers_randomized_fr}
use aptos_setup_ceremony.Crypto.Fptx.Params.{FptxParams}
use aptos_setup_ceremony.Crypto.Fptx.Laws.{IsDigestOf}
use aptos_setup_ceremony.Crypto.Fptx.First.{first_contribution-IsDigestOf}
use aptos_setup_ceremony.Crypto.Fptx.Made.{verify-generate_fptx}
use aptos_setup_ceremony.Crypto.HidingKzg
use aptos_setup_ceremony.Crypto.Contribution.{ContributionInner}
use aptos_setup_ceremony.Crypto.Contribution.Laws.{IsComplete}
use aptos_setup_ceremony.Crypto.Aptos.{AptosParams, AptosContributionInner, generate, verify}
use aptos_setup_ceremony.Crypto.Aptos.Laws.{
  IsSetup, IsNontrivial, aptos_inner, IsSecret, verify-generate_aptos, aptos_inner-IsComplete,
}
use aptos_setup_ceremony.Tests.Chain.{same_hashes, same_hashes_iff}
use aptos_setup_ceremony.Tests.Ternary.{Trit, unit, minus, ternary, ternary-IsCurve}

abbrev hash_pot : PowersOfTau.HashPreimage ternary → Trit
hash_pot pre = unit

abbrev hash_alpha : Fptx.HashPreimage ternary → Trit
hash_alpha pre = minus

abbrev hash_xi : HidingKzg.HashPreimage ternary → Trit
hash_xi pre = unit

-- Two rounds of batches of two.
abbrev two_rounds : FptxParams
two_rounds = record { batch_size = 2; num_rounds = 2 }

abbrev aptos_params : AptosParams
aptos_params = record { fptx = two_rounds; hiding_kzg = record { max_power = 3 } }

abbrev ones : List Trit
ones = unit ∷ unit ∷ unit ∷ []

abbrev first_fptx : FptxContributionInner ternary
first_fptx = record {
  tau_powers_contrib_inner = PowersOfTau.first_contribution ternary unit (record { max_power = 2 });
  alphas_g2 = unit ∷ unit ∷ [];
  soks_alphas = record { sig = unit } ∷ record { sig = unit } ∷ [];
  randomized_tau_powers_g1 = ones ∷ ones ∷ [];
}

first_fptx-IsDigestOf : IsDigestOf ternary unit (unit ∷ unit ∷ []) two_rounds first_fptx
first_fptx-IsDigestOf = record {
  rounds = refl;
  pot = first_contribution-IsPowersOf ternary ternary-IsCurve unit (record { max_power = 2 });
  alphas_are = refl;
  soks = refl;
  randomized_are = refl;
}

first_contribution-IsDigestOf_example :
    (c : FptxContributionInner ternary) × ((E : Type 0)
      → Fptx.first_contribution ternary {E = E} unit two_rounds ≡ done c)
    × IsDigestOf ternary unit (replicate 2 unit) two_rounds c
first_contribution-IsDigestOf_example =
    first_contribution-IsDigestOf ternary ternary-IsCurve unit two_rounds

verify-generate_fptx_example :
    (new : FptxContributionInner ternary) × (rng'' : Trit) × (r : MultipairingEquation ternary
      × Trit)
    × (Fptx.generate ternary hash_pot hash_alpha minus first_fptx two_rounds ≡ done (new, rng''))
    × (Fptx.verify ternary hash_pot hash_alpha new unit (λ i. minus) first_fptx two_rounds ≡ done r)
    × (equals_zero ternary r.0 ≡ done tt)
unfolding rands PowersOfTau.first_contribution
verify-generate_fptx_example =
    verify-generate_fptx ternary ternary-IsCurve hash_pot hash_alpha two_rounds minus first_fptx
      unit (unit ∷ unit ∷ []) first_fptx-IsDigestOf unit (λ i. minus) (λ e. ground arith) refl refl

abbrev first_aptos : AptosContributionInner ternary
first_aptos = record {
  fptx = first_fptx;
  hiding_kzg = HidingKzg.first_contribution ternary unit aptos_params.hiding_kzg;
}

abbrev Setup : AptosContributionInner ternary → Type 0
Setup = IsSetup ternary ternary-IsCurve hash_pot hash_alpha hash_xi aptos_params

abbrev Nontrivial : AptosContributionInner ternary → Type 0
Nontrivial = IsNontrivial ternary ternary-IsCurve hash_pot hash_alpha hash_xi aptos_params

first_aptos-IsSetup : Setup first_aptos
unfolding HidingKzg.first_contribution
first_aptos-IsSetup = record {
  tau = unit;
  alphas = unit ∷ unit ∷ [];
  digest = first_fptx-IsDigestOf;
  trapdoor = unit;
  xi = unit;
  key = record {
    pot = first_contribution-IsPowersOf ternary ternary-IsCurve unit aptos_params.hiding_kzg;
    xi_g1_is = refl;
    xi_g2_is = refl;
  };
}

verify-generate_aptos_example :
    (new : AptosContributionInner ternary) × (rng' : Trit) × (generate ternary hash_pot hash_alpha
        hash_xi minus first_aptos aptos_params
      ≡ done (new, rng'))
    × Setup new
    × (Nontrivial new
        → (v : Trit) (thread_rng : ℕ → Trit)
        → (r : MultipairingEquation ternary × Trit) × (verify ternary hash_pot hash_alpha hash_xi
              new v thread_rng first_aptos aptos_params
            ≡ done r)
          × (equals_zero ternary r.0 ≡ done tt))
verify-generate_aptos_example =
    verify-generate_aptos ternary ternary-IsCurve hash_pot hash_alpha hash_xi aptos_params minus
      first_aptos first_aptos-IsSetup (λ e. ground arith) (λ e. ground arith)

abbrev inner : ContributionInner ternary
inner =
    aptos_inner ternary ternary-IsCurve hash_pot hash_alpha hash_xi aptos_params (λ c. tt) unit
      (λ i. minus)

aptos_inner-IsComplete_example :
    (first : AptosContributionInner ternary) × IsComplete ternary inner
      (λ c. 0)
      same_hashes
      same_hashes_iff
      aptos_params
      first
      Setup
      (IsSecret ternary ternary-IsCurve hash_pot hash_alpha hash_xi aptos_params)
aptos_inner-IsComplete_example =
    aptos_inner-IsComplete ternary ternary-IsCurve hash_pot hash_alpha hash_xi aptos_params
      (λ c. tt) unit (λ i. minus) (λ c. 0) same_hashes same_hashes_iff (λ e. ground arith)
      (λ e. ground arith)
