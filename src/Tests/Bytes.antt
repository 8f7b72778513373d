-- ===== src/Tests/Bytes.antt =====
-- The serialization of vectors at concrete inputs: values of two bytes, the second of which is zero.
use aptos_setup_ceremony.Base.{
  ℕ, ◌≡◌, ◌≢◌, refl, ap, ◌↔◌, Option, none, some, List, [], ◌∷◌, length, take, Memᴰ, arith, inl,
}
use aptos_setup_ceremony.Crypto.Attempt.{done, failed, panicked}
use aptos_setup_ceremony.Serde.{
  Canonical, word, max_ranges, max_vectors, trailing_bytes, par_ark_se_vec, par_ark_de_vec,
  par_ark_se_vec_vec, par_ark_de_vec_vec,
}
use aptos_setup_ceremony.Serde.Words.{to_le_bytes, from_le_bytes, limit}
use aptos_setup_ceremony.Serde.Flat.{
  IsCanonical, par_ark_de_vec-par_ark_se_vec, par_ark_de_vec-panicked,
}
use aptos_setup_ceremony.Serde.Empty.{
  par_ark_de_vec_vec-par_ark_se_vec_vec, par_ark_de_vec_vec_refuses,
}

abbrev read_pair : List ℕ → Option (ℕ × ℕ)
read_pair (x ∷ y ∷ rest) = some (x, 2)
read_pair _ = none

abbrev pairs : Canonical
pairs = record {
  T = ℕ;
  serialize = λ x. x ∷ 0 ∷ [];
  deserialize = read_pair;
  deserialize_unchecked = read_pair;
}

pairs-IsCanonical : IsCanonical pairs 2
pairs-IsCanonical = record {
  size_pos = omega arith;
  serialize-length = λ t. refl;
  deserialize-serialize = λ t rest. refl;
  deserialize_unchecked-serialize = λ t rest. refl;
}

abbrev length_only : List ℕ
length_only = 1 ∷ 0 ∷ 0 ∷ 0 ∷ 0 ∷ 0 ∷ 0 ∷ 0 ∷ []

par_ark_de_vec-panicked_example :
    (par_ark_de_vec pairs length_only ≡ panicked)
    ↔ ((length length_only ≡ 8) × (from_le_bytes (take 8 length_only) ≢ 0))
par_ark_de_vec-panicked_example = par_ark_de_vec-panicked pairs length_only

par_ark_de_vec-par_ark_se_vec_example :
    par_ark_de_vec pairs (par_ark_se_vec pairs (5 ∷ 6 ∷ 7 ∷ [])) ≡ done (5 ∷ 6 ∷ 7 ∷ [])
unfolding limit
par_ark_de_vec-par_ark_se_vec_example =
    par_ark_de_vec-par_ark_se_vec pairs 2 pairs-IsCanonical (5 ∷ 6 ∷ 7 ∷ []) (omega arith)

par_ark_de_vec_vec-par_ark_se_vec_vec_example :
    par_ark_de_vec_vec pairs (par_ark_se_vec_vec pairs ((5 ∷ 6 ∷ []) ∷ [] ∷ (7 ∷ []) ∷ []))
    ≡ done ((5 ∷ 6 ∷ []) ∷ [] ∷ (7 ∷ []) ∷ [])
unfolding limit max_vectors word par_ark_se_vec_vec to_le_bytes par_ark_se_vec
par_ark_de_vec_vec-par_ark_se_vec_vec_example =
    par_ark_de_vec_vec-par_ark_se_vec_vec pairs 2 pairs-IsCanonical
      ((5 ∷ 6 ∷ []) ∷ [] ∷ (7 ∷ []) ∷ []) (inl (5, 6 ∷ [], [] ∷ (7 ∷ []) ∷ [], refl))
      (omega arith, (omega arith, (omega arith, tt))) (omega arith) (omega arith)

par_ark_de_vec_vec_refuses_example :
    par_ark_de_vec_vec pairs (par_ark_se_vec_vec pairs ([] ∷ (7 ∷ []) ∷ [])) ≡ failed trailing_bytes
unfolding max_ranges word par_ark_se_vec_vec to_le_bytes par_ark_se_vec
par_ark_de_vec_vec_refuses_example =
    par_ark_de_vec_vec_refuses pairs 2 pairs-IsCanonical ((7 ∷ []) ∷ []) (Memᴰ.head refl)
      (λ e. absurd (omega (arith, ap length e))) (omega arith) (omega arith)
