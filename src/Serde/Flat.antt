-- ===== src/Serde/Flat.antt =====
-- A vector that is written is read back, and where reading panics: `par_ark_se_vec` and
-- `par_ark_de_vec` of common/src/parallel_ark_serde.rs.
use aptos_setup_ceremony.Base.{
  ℕ, zero, suc, ◌*◌, ◌/◌, ◌%◌, ◌≤◌, ◌<◌, ◌≡◌, ◌≢◌, refl, sym, ap, ◌∙◌, ◌↔◌, ◌==◌, List, [], ◌∷◌,
  ◌++◌, map, length, take, drop, arith, length-append, length-drop, some, false,
}
use aptos_setup_ceremony.Crypto.Attempt.{done, failed, panicked}
use aptos_setup_ceremony.Base.{ltb, not, if◌then◌else◌}
use aptos_setup_ceremony.Serde.{
  not_divisible, Canonical, concat, chunks, elements, par_chunks, par_ark_se_vec, par_ark_de_vec,
}
use aptos_setup_ceremony.Serde.Words.{
  to_le_bytes, from_le_bytes, to_le_bytes-length, from_le_bytes-to_le_bytes, limit,
}
use aptos_setup_ceremony.Serde.Slices.{
  take-append_size, drop-append_size, take-append, drop-append, append_nil,
}

-- What a compressed encoding of points does: all values take `size` bytes, and a value that stands
-- in front of other bytes is read back with its size.
pub record IsCanonical (K : Canonical) (size : ℕ) : Type 0 where
  pub size_pos : 0 < size
  pub serialize-length : (t : K.T) → length (K.serialize t) ≡ size
  pub deserialize-serialize :
      (t : K.T) (rest : List ℕ) → K.deserialize (K.serialize t ++ rest) ≡ some (t, size)
  pub deserialize_unchecked-serialize :
      (t : K.T) (rest : List ℕ) → K.deserialize_unchecked (K.serialize t ++ rest) ≡ some (t, size)

chunks-append :
    (fuel : ℕ) (xs ys : List ℕ)
    → 0 < length xs
    → chunks (suc fuel) (length xs) (xs ++ ys) ≡ xs ∷ chunks fuel (length xs) ys
unfolding chunks
chunks-append fuel [] ys h = absurd (omega arith)
chunks-append fuel (x ∷ xs) ys h =
    ap (λ t. (x ∷ t) ∷ chunks fuel (suc (length xs)) (drop (length xs) (xs ++ ys)))
      (take-append xs ys)
    ∙ ap (λ d. (x ∷ xs) ∷ chunks fuel (suc (length xs)) d) (drop-append xs ys)

module _ (K : Canonical) (size : ℕ) (L : IsCanonical K size) where
  pub concat-length : (ts : List K.T) → length (concat (map K.serialize ts)) ≡ length ts * size
  concat-length [] = omega arith
  concat-length (t ∷ ts) =
      let e = length-append (K.serialize t) (concat (map K.serialize ts)) in
      let s = L.serialize-length t in let ih = concat-length ts in grind arith

  pub deserialize-alone : (t : K.T) → K.deserialize (K.serialize t) ≡ some (t, size)
  deserialize-alone t =
      ap K.deserialize (sym (append_nil (K.serialize t))) ∙ L.deserialize-serialize t []

  chunks-serialize :
      (fuel : ℕ) (t : K.T) (ys : List ℕ)
      → chunks (suc fuel) size (K.serialize t ++ ys) ≡ K.serialize t ∷ chunks fuel size ys
  chunks-serialize fuel t ys =
      let e = L.serialize-length t in
      let p = L.size_pos in
      ap (λ n. chunks (suc fuel) n (K.serialize t ++ ys)) (sym e)
      ∙ chunks-append fuel (K.serialize t) ys (omega arith)
      ∙ ap (λ n. K.serialize t ∷ chunks fuel n ys) e

  elements-chunks :
      (fuel : ℕ) (ts : List K.T)
      → length (concat (map K.serialize ts)) ≤ fuel
      → elements K (chunks fuel size (concat (map K.serialize ts))) ≡ done ts
  unfolding elements
  elements-chunks zero [] h = unfold chunks in refl
  elements-chunks (suc fuel) [] h = unfold chunks in refl
  elements-chunks zero (t ∷ ts) h =
      let e = length-append (K.serialize t) (concat (map K.serialize ts)) in
      let s = L.serialize-length t in let p = L.size_pos in absurd (omega arith)
  elements-chunks (suc fuel) (t ∷ ts) h =
      let e = length-append (K.serialize t) (concat (map K.serialize ts)) in
      let s = L.serialize-length t in
      let p = L.size_pos in
      rw (chunks-serialize fuel t (concat (map K.serialize ts)))
        (ground (arith, deserialize-alone t, elements-chunks fuel ts (omega arith)))

  pub par_chunks-concat :
      (ts : List K.T) → par_chunks K size (concat (map K.serialize ts)) ≡ done ts
  unfolding par_chunks
  par_chunks-concat ts =
      let p = L.size_pos in
      let e = elements-chunks (length (concat (map K.serialize ts))) ts (omega arith) in
      ground arith

  filled :
      (ts : List K.T)
      → (if length ts == 0
          then done []
          else if not (length ts * size % length ts == 0)
          then failed not_divisible
          else par_chunks K (length ts * size / length ts) (concat (map K.serialize ts)))
        ≡ done ts
  filled [] = refl
  filled (t ∷ ts) =
      let whole : suc (length ts) * size % suc (length ts) ≡ 0 = grind arith in
      let share : suc (length ts) * size / suc (length ts) ≡ size = grind arith in
      rw (whole, share) (ground (arith, par_chunks-concat (t ∷ ts)))

  -- A vector of fewer than 2 ^ 64 values that is written is read back.
  pub par_ark_de_vec-par_ark_se_vec :
      (ts : List K.T) → length ts < limit 8 → par_ark_de_vec K (par_ark_se_vec K ts) ≡ done ts
  unfolding par_ark_de_vec par_ark_se_vec
  par_ark_de_vec-par_ark_se_vec ts h =
      let head = to_le_bytes 8 (length ts) in
      let body = concat (map K.serialize ts) in
      let hl : length head ≡ 8 = to_le_bytes-length 8 (length ts) in
      let read : from_le_bytes head ≡ length ts = from_le_bytes-to_le_bytes 8 (length ts) h in
      let long : ltb (length (head ++ body)) 8 ≡ false =
        ground (arith, hl, length-append head body) in
      rw
        (
          take-append_size 8 head body hl,
          drop-append_size 8 head body hl,
          read,
          long,
          concat-length ts,
        )
        (filled ts)

elements-no_panic : (K : Canonical) (bs : List (List ℕ)) → elements K bs ≢ panicked
unfolding elements
elements-no_panic K [] = ground arith
elements-no_panic K (b ∷ bs) = ground (arith, elements-no_panic K bs)

pub par_chunks-panicked :
    (K : Canonical) (es : ℕ) (bytes : List ℕ) → (par_chunks K es bytes ≡ panicked) ↔ (es ≡ 0)
unfolding par_chunks
par_chunks-panicked K es bytes =
    ground (arith, elements-no_panic K (chunks (length bytes) es bytes))

zero_share : (d : ℕ) → 0 / d ≡ 0
zero_share d = grind arith

zero_left : (d : ℕ) → 0 % d ≡ 0
zero_left d = grind arith

no_share : (n d : ℕ) → d ≢ 0 → n % d ≡ 0 → n / d ≡ 0 → n ≡ 0
no_share n d h r q = grind arith

-- Reading panics exactly on the bytes of a length that is not zero, with no elements after it.
pub par_ark_de_vec-panicked :
    (K : Canonical) (raw : List ℕ)
    → (par_ark_de_vec K raw ≡ panicked) ↔ ((length raw ≡ 8) × (from_le_bytes (take 8 raw) ≢ 0))
unfolding par_ark_de_vec
par_ark_de_vec-panicked K raw =
    let len = from_le_bytes (take 8 raw) in
    let rest = drop 8 raw in
    let pc = par_chunks-panicked K (length rest / len) rest in
    let none_left = no_share (length rest) len in
    let size = length-drop 8 raw in
    (
      λ h. ground (arith, pc.0, none_left, size),
      λ h.
          let z : length rest ≡ 0 = omega (arith, h.0) in
          let q : length rest / len ≡ 0 = rw z (zero_share len) in
          let m : length rest % len ≡ 0 = rw z (zero_left len) in ground (arith, pc.1, q, m, h),
    )
