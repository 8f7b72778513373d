-- ===== src/Tests/Contributions.antt =====
-- The theorems on contributions at concrete inputs, over the field of three elements.
use aptos_setup_ceremony.Base.{ℕ, ◌≡◌, ◌≢◌, refl, List, [], ◌∷◌, arith, ◌⊎◌, ◌^◌}
use aptos_setup_ceremony.Crypto.Attempt.{done, failed}
use aptos_setup_ceremony.Crypto.MultipairingEquation.{
  MultipairingEquation, simple, combine, compact, equals_zero,
}
use aptos_setup_ceremony.Crypto.MultipairingEquation.Laws.{
  IsBalanced, value, weighted, combine_sound, compact-value,
}
use aptos_setup_ceremony.Crypto.PowersOfTau
use aptos_setup_ceremony.Crypto.PowersOfTau.{PowersOfTauParams, PowersOfTauContributionInner}
use aptos_setup_ceremony.Crypto.PowersOfTau.Laws.{first_contribution-IsPowersOf, verify-generate}
use aptos_setup_ceremony.Crypto.HidingKzg
use aptos_setup_ceremony.Crypto.HidingKzg.{HidingKzgContributionInner}
use aptos_setup_ceremony.Crypto.HidingKzg.Laws.{IsKeyOf, verify-generate_kzg}
use aptos_setup_ceremony.Crypto.Fptx.Params.{FptxParams, new, new-powers, not_power_of_two}
use aptos_setup_ceremony.Base.{String, some, map}
use aptos_setup_ceremony.Upload.{upload_parallel, upload_parallel-joined, joined}
use aptos_setup_ceremony.Tests.Ternary.{Trit, unit, minus, ternary, ternary-IsCurve}

abbrev four : PowersOfTauParams
four = record { max_power = 3 }

abbrev first_powers : PowersOfTauContributionInner ternary
first_powers = PowersOfTau.first_contribution ternary unit four

verify-generate_example :
    (new : PowersOfTauContributionInner ternary) × (powers_fr : List Trit)
    × (r : MultipairingEquation ternary × Trit) × (PowersOfTau.generate ternary
          (λ pre. unit)
          minus
          first_powers
          four
        ≡ done ((new, powers_fr), minus))
    × (PowersOfTau.verify ternary (λ pre. unit) new unit first_powers four ≡ done r)
    × (equals_zero ternary r.0 ≡ done tt)
unfolding PowersOfTau.first_contribution
verify-generate_example =
    verify-generate ternary ternary-IsCurve (λ pre. unit) minus first_powers four unit
      (first_contribution-IsPowersOf ternary ternary-IsCurve unit four) unit (λ e. ground arith)
      refl

abbrev first_key : HidingKzgContributionInner ternary
first_key = HidingKzg.first_contribution ternary unit four

first_key-IsKeyOf : IsKeyOf ternary unit unit four first_key
unfolding HidingKzg.first_contribution
first_key-IsKeyOf = record {
  pot = first_contribution-IsPowersOf ternary ternary-IsCurve unit four;
  xi_g1_is = refl;
  xi_g2_is = refl;
}

verify-generate_kzg_example :
    (new : HidingKzgContributionInner ternary) × (secrets : List Trit × Trit) × (rng'' : Trit)
    × (r : MultipairingEquation ternary × Trit) × (HidingKzg.generate ternary
          (λ pre. unit)
          (λ pre. minus)
          minus
          first_key
          four
        ≡ done ((new, secrets), rng''))
    × (HidingKzg.verify ternary (λ pre. unit) (λ pre. minus) new unit first_key four ≡ done r)
    × (equals_zero ternary r.0 ≡ done tt)
unfolding HidingKzg.first_contribution PowersOfTau.first_contribution
verify-generate_kzg_example =
    verify-generate_kzg ternary ternary-IsCurve (λ pre. unit) (λ pre. minus) minus first_key four
      unit unit first_key-IsKeyOf unit (λ e. ground arith) refl refl

abbrev holds_eq : MultipairingEquation ternary
holds_eq = simple ternary (unit ∷ unit ∷ []) (unit ∷ minus ∷ [])

combine-sound_example :
    (equals_zero ternary holds_eq ≡ done tt) × (equals_zero ternary holds_eq ≡ done tt)
unfolding combine equals_zero
combine-sound_example =
    combine_sound ternary ternary-IsCurve unit minus holds_eq holds_eq refl refl (λ e. ground arith)
      refl refl

abbrev fails_eq : MultipairingEquation ternary
fails_eq = simple ternary (unit ∷ []) (unit ∷ [])

compact-value_example :
    let batch = (compact ternary minus (fails_eq ∷ holds_eq ∷ [])).0 in
    IsBalanced ternary ternary-IsCurve batch
    × (value ternary ternary-IsCurve batch
        ≡ weighted ternary ternary-IsCurve minus (fails_eq ∷ holds_eq ∷ []))
compact-value_example =
    compact-value ternary ternary-IsCurve minus (fails_eq ∷ holds_eq ∷ []) (refl, (refl, tt))

abbrev dozen : ℕ
dozen = 12

new-powers_example :
    let params : FptxParams = record { batch_size = dozen; num_rounds = 4 } in
    ((new dozen 4 ≡ done params) × ((dozen ≡ 0) ⊎ ((k : ℕ) × (dozen ≡ 2 ^ k))))
    ⊎ ((new dozen 4 ≡ failed not_power_of_two) × (dozen ≢ 0) × ((k : ℕ) → dozen ≢ 2 ^ k))
new-powers_example = new-powers dozen 4

upload_parallel-joined_example :
    let bytes : List ℕ = 1 ∷ 2 ∷ 3 ∷ 4 ∷ 5 ∷ [] in
    (ps : List (String × List ℕ)) × (upload_parallel bytes ("a" ∷ "b" ∷ []) ≡ some ps)
    × (map (λ p. p.0) ps ≡ "a" ∷ "b" ∷ [])
    × (joined bytes ps ≡ bytes)
upload_parallel-joined_example = upload_parallel-joined (1 ∷ 2 ∷ 3 ∷ 4 ∷ 5 ∷ []) "a" ("b" ∷ [])
