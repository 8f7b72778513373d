-- ===== src/Crypto/Fptx/Params.antt =====
-- `FPTXParams::new`: common/src/fptx.rs. The loop halves `i`, so `batch_size` is fuel enough.
use aptos_setup_ceremony.Base.{
  ℕ, zero, suc, ◌*◌, ◌/◌, ◌%◌, ◌^◌, ◌≤◌, ◌≡◌, ◌≢◌, refl, ap, ◌∙◌, ◌⊎◌, inl, inr, Bool, Bool-cases,
  true, false, ltb, ◌==◌, arith, if◌then◌else◌,
}
use aptos_setup_ceremony.Crypto.Attempt.{Attempt, done, failed}

pub record FptxParams : Type 0 where
  pub batch_size : ℕ
  pub num_rounds : ℕ

pub data BatchSizeNotPowerOfTwo : Type 0 where
  not_power_of_two : BatchSizeNotPowerOfTwo

unfoldable pub halve : ℕ → ℕ → Bool
halve zero i = true
halve (suc fuel) i =
    let rest = halve fuel (i / 2) in if ltb 1 i then (if i % 2 == 0 then rest else false) else true

unfoldable pub new : ℕ → ℕ → Attempt BatchSizeNotPowerOfTwo FptxParams
unfolding halve
new batch_size num_rounds =
    if halve batch_size batch_size
    then done (record { batch_size = batch_size; num_rounds = num_rounds })
    else failed not_power_of_two

power : (k : ℕ) → 2 ^ suc k ≡ 2 * 2 ^ k
power k = grind arith

-- What the loop accepts.
halve-powers : (fuel i : ℕ) → i ≤ fuel → halve fuel i ≡ true → (i ≡ 0) ⊎ ((k : ℕ) × (i ≡ 2 ^ k))
unfolding halve
halve-powers zero i le h = inl (omega arith)
halve-powers (suc fuel) zero le h = inl refl
halve-powers (suc fuel) (suc zero) le h = inr (0, refl)
halve-powers (suc fuel) (suc (suc j)) le h =
    elim (halve-powers fuel (suc (suc j) / 2) (omega arith) (ground arith)) [
      | inl z ↦ absurd (omega arith)
      | inr (k, e) ↦
          inr
            (suc k, let even : suc (suc j) % 2 ≡ 0 = ground arith in let p = power k in omega arith)
    ]

halve-accepts : (fuel k : ℕ) → halve fuel (2 ^ k) ≡ true
unfolding halve
halve-accepts zero k = refl
halve-accepts (suc fuel) zero = ground arith
halve-accepts (suc fuel) (suc k) =
    let p = power k in
    let half : 2 ^ suc k / 2 ≡ 2 ^ k = omega arith in
    let rest : halve fuel (2 ^ suc k / 2) ≡ true = ap (halve fuel) half ∙ halve-accepts fuel k in
    let even : 2 ^ suc k % 2 ≡ 0 = omega arith in ground arith

-- The parameters are made where the batch size is zero or a power of two, and refused where it is
-- neither.
pub new-powers :
    (batch_size num_rounds : ℕ)
    → let params : FptxParams = record { batch_size = batch_size; num_rounds = num_rounds } in
      ((new batch_size num_rounds ≡ done params)
        × ((batch_size ≡ 0) ⊎ ((k : ℕ) × (batch_size ≡ 2 ^ k))))
      ⊎ ((new batch_size num_rounds ≡ failed not_power_of_two)
          × (batch_size ≢ 0)
          × ((k : ℕ) → batch_size ≢ 2 ^ k))
unfolding new halve
new-powers batch_size num_rounds = elim (Bool-cases (halve batch_size batch_size)) [
  | inl h ↦ inl (rw h refl, halve-powers batch_size batch_size (omega arith) h)
  | inr h ↦ inr (
    rw h refl,
    λ z. absurd (ground (arith, h, ap (λ n. halve n n) z)),
    λ k e. absurd (ground (arith, halve-accepts batch_size k, ap (halve batch_size) e)),
  )
]
