-- ===== src/Crypto/Attempt.antt =====
-- The results of the code of common/src, with its errors: common/src/errors.rs.
use aptos_setup_ceremony.Base.{◌≡◌, refl, ◌⊎◌, inl, inr}

pub data ContributionGenerationFailure : Type 0 where
  params_mismatch : ContributionGenerationFailure

pub data MultipairingEquationNonZeroResult : Type 0 where
  non_zero_result : MultipairingEquationNonZeroResult

-- A result, an error, or a panic.
pub data Attempt (E A : Type 0) : Type 0 where
  done : A → Attempt E A
  failed : E → Attempt E A
  panicked : Attempt E A

infixl 5 ◌>>=◌
abbrev pub ◌>>=◌ : {E A B : Type 0} → Attempt E A → (A → Attempt E B) → Attempt E B
done a >>= f = f a
failed e >>= f = failed e
panicked >>= f = panicked

pub Attempt-cases :
    {E A : Type 0} (r : Attempt E A)
    → ((a : A) × (r ≡ done a)) ⊎ ((e : E) × (r ≡ failed e)) ⊎ (r ≡ panicked)
Attempt-cases (done a) = inl (a, refl)
Attempt-cases (failed e) = inr (inl (e, refl))
Attempt-cases panicked = inr (inr refl)
