-- ===== src/Crypto/MultipairingEquation.antt =====
-- Equations of a multipairing with zero, and their batching: common/src/multipairing_equation.rs.
-- The logging is left out.
pub mod Laws
pub mod Shared
use aptos_setup_ceremony.Base.{
  ℕ, zero, suc, Bool, Option, none, some, List, [], ◌∷◌, ◌++◌, map, length, if◌then◌else◌,
}
use aptos_setup_ceremony.Crypto.Attempt.{
  MultipairingEquationNonZeroResult, non_zero_result, Attempt, done, failed, panicked, ◌>>=◌,
}
use aptos_setup_ceremony.Crypto.Curve.{Curve}

-- `xs[i]`, which panics out of range.
abbrev pub index {ℓ} : {A : Type ℓ} → List A → ℕ → Option A
index [] i = none
index (x ∷ xs) zero = some x
index (x ∷ xs) (suc i) = index xs i

abbrev pub zip {ℓ} : {A B : Type ℓ} → List A → List B → List (A × B)
zip (x ∷ xs) (y ∷ ys) = (x, y) ∷ zip xs ys
zip _ _ = []

module _ (C : Curve) where
  open C use {Fr, G1, G2, Rng, mul_g1, is_zero_gt, multi_pairing, msm, rand}

  pub record MultipairingEquation : Type 0 where
    pub g1s : List G1
    pub g2s : List G2

  abbrev pub simple : List G1 → List G2 → MultipairingEquation
  simple g1s g2s = record { g1s = g1s; g2s = g2s }

  abbrev pub empty : MultipairingEquation
  empty = simple [] []

  -- `n` scalars, one after the other.
  unfoldable pub rands : ℕ → Rng → List Fr × Rng
  rands zero rng = ([], rng)
  rands (suc n) rng =
      let (a, rng₁) = rand rng in let (rest, rng₂) = rands n rng₁ in (a ∷ rest, rng₂)

  -- The points at place `i` of each list.
  unfoldable pub column : ℕ → List (List G1) → Option (List G1)
  column i [] = some []
  column i (ps ∷ rest) =
      let others = column i rest in
      elim (index ps i) [
        | none ↦ none
        | some p ↦ elim others [ none ↦ none | some qs ↦ some (p ∷ qs) ]
      ]

  -- `(i..i + n).map(|i| msm(g1s[..][i], challenge))`
  unfoldable pub combined : ℕ → ℕ → List (List G1) → List Fr → Option (List G1)
  unfolding column
  combined i zero g1s challenge = some []
  combined i (suc n) g1s challenge =
      let others = combined (suc i) n g1s challenge in
      elim (column i g1s) [
        | none ↦ none
        | some ps ↦ elim others [ none ↦ none | some qs ↦ some (msm ps challenge ∷ qs) ]
      ]

  unfoldable pub with_shared_g2s :
      {E : Type 0} → Rng → List (List G1) → List G2 → Attempt E (MultipairingEquation × Rng)
  unfolding rands combined
  with_shared_g2s rng [] shared_g2s = panicked
  with_shared_g2s rng (first ∷ rest) shared_g2s =
      let (challenge, rng') = rands (length (first ∷ rest)) rng in
      elim (combined 0 (length first) (first ∷ rest) challenge) [
        | none ↦ panicked
        | some g1s_combined_scaled ↦ done (simple g1s_combined_scaled shared_g2s, rng')
      ]

  unfoldable pub scalar_mul : MultipairingEquation → Fr → MultipairingEquation
  scalar_mul self scalar = simple (map (λ g1. mul_g1 scalar g1) self.g1s) self.g2s

  unfoldable pub combine :
      Rng → MultipairingEquation → MultipairingEquation → MultipairingEquation × Rng
  unfolding scalar_mul
  combine rng self other =
      let (scalar, rng') = rand rng in
      let other_scaled = scalar_mul other scalar in
      (simple (self.g1s ++ other_scaled.g1s) (self.g2s ++ other_scaled.g2s), rng')

  unfoldable pub equals_zero :
      MultipairingEquation → Attempt MultipairingEquationNonZeroResult (Unit {0})
  equals_zero self =
      if is_zero_gt (multi_pairing self.g1s self.g2s) then done tt else failed non_zero_result

  -- `MultipairingEquations` is the vector of its equations.
  abbrev pub MultipairingEquations : Type 0
  MultipairingEquations = List MultipairingEquation

  abbrev pub add : MultipairingEquations → MultipairingEquation → MultipairingEquations
  add self eq = self ++ eq ∷ []

  abbrev pub add_eqs : MultipairingEquations → MultipairingEquations → MultipairingEquations
  add_eqs self eq = self ++ eq

  -- The pairs of all scaled equations: `flatten` zips the two vectors of each.
  unfoldable pub scaled_pairs : MultipairingEquations → List Fr → List (G1 × G2)
  unfolding scalar_mul
  scaled_pairs (eq ∷ eqs) (scalar ∷ scalars) =
      zip (scalar_mul eq scalar).g1s (scalar_mul eq scalar).g2s ++ scaled_pairs eqs scalars
  scaled_pairs _ _ = []

  unfoldable pub compact : Rng → MultipairingEquations → MultipairingEquation × Rng
  unfolding rands scaled_pairs
  compact rng self =
      let (random_scalars, rng') = rands (length self) rng in
      let pairs = scaled_pairs self random_scalars in
      (simple (map (λ p. p.0) pairs) (map (λ p. p.1) pairs), rng')
