-- ===== src/Serde.antt =====
-- Vectors of curve points as bytes: common/src/parallel_ark_serde.rs. A byte is a number, and the
-- serde wrapper around the bytes is left out. `usize` has 64 bits, and its arithmetic wraps around.
-- Work that rayon splits is done in order, so of several errors the first one is returned.
pub mod Words
pub mod Slices
pub mod Flat
pub mod Nested
pub mod Empty
use aptos_setup_ceremony.Base.{
  ℕ, zero, suc, ◌+◌, ◌-◌, ◌*◌, ◌/◌, ◌%◌, ◌^◌, Bool, Option, none, some, List, [], ◌∷◌, ◌++◌, map,
  length, take, drop, replicate, ltb, leb, not, ◌==◌, ◌&&◌, if◌then◌else◌,
}
use aptos_setup_ceremony.Crypto.Attempt.{Attempt, done, failed, panicked, ◌>>=◌}
use aptos_setup_ceremony.Serde.Words.{to_le_bytes, from_le_bytes}

-- `CanonicalSerialize` and `CanonicalDeserialize` of a type, compressed: the bytes of a value, and the
-- value at the start of some bytes with the number of bytes read. `deserialize` is the reading of an
-- element, which the feature `validate` sets to `Validate::Yes`, and `deserialize_unchecked` the one
-- with `Validate::No`.
pub record Canonical : Type 1 where
  pub T : Type 0
  pub serialize : T → List ℕ
  pub deserialize : List ℕ → Option (T × ℕ)
  pub deserialize_unchecked : List ℕ → Option (T × ℕ)

pub data SerdeError : Type 0 where
  no_length_prefix not_divisible invalid_element : SerdeError
  truncated_length truncated_elements trailing_bytes : SerdeError

-- 2 ^ 64
unfoldable pub word : ℕ
word = 2 ^ 64

-- The most elements of 16 bytes that `Vec::with_capacity` takes.
unfoldable pub max_ranges : ℕ
max_ranges = (2 ^ 63 - 1) / 16

-- The most vectors that a vector holds, at 24 bytes each.
unfoldable pub max_vectors : ℕ
max_vectors = (2 ^ 63 - 1) / 24

abbrev pub concat : List (List ℕ) → List ℕ
concat [] = []
concat (b ∷ bs) = b ++ concat bs

-- `raw[start..end]`
unfoldable pub slice : List ℕ → ℕ → ℕ → Option (List ℕ)
slice raw start end =
    if leb start end && leb end (length raw)
    then some (take (end - start) (drop start raw))
    else none

-- `chunks(es)`, on fuel.
unfoldable pub chunks : ℕ → ℕ → List ℕ → List (List ℕ)
chunks zero es bytes = []
chunks (suc fuel) es [] = []
chunks (suc fuel) es (b ∷ bytes) = take es (b ∷ bytes) ∷ chunks fuel es (drop es (b ∷ bytes))

module _ (K : Canonical) where
  open K use {T, serialize, deserialize, deserialize_unchecked}

  unfoldable pub par_ark_se_vec : List T → List ℕ
  par_ark_se_vec vec = to_le_bytes 8 (length vec) ++ concat (map serialize vec)

  -- Each chunk read, up to the first that is no element.
  unfoldable pub elements : List (List ℕ) → Attempt SerdeError (List T)
  elements [] = done []
  elements (chunk ∷ rest) =
      let others = elements rest in
      elim (deserialize chunk) [
        | none ↦ failed invalid_element
        | some t ↦ others >>= λ ts. done (t.0 ∷ ts)
      ]

  -- `par_chunks(es)` with each chunk read: no chunk size is zero.
  unfoldable pub par_chunks : ℕ → List ℕ → Attempt SerdeError (List T)
  par_chunks es bytes = if es == 0 then panicked else elements (chunks (length bytes) es bytes)

  unfoldable pub par_ark_de_vec : List ℕ → Attempt SerdeError (List T)
  par_ark_de_vec raw =
      let len = from_le_bytes (take 8 raw) in
      let rest = drop 8 raw in
      if ltb (length raw) 8
      then failed no_length_prefix
      else if len == 0
      then done []
      else if not (length rest % len == 0)
      then failed not_divisible
      else par_chunks (length rest / len) rest

  unfoldable pub par_ark_se_vec_vec : List (List T) → List ℕ
  par_ark_se_vec_vec vec = to_le_bytes 8 (length vec) ++ concat (map par_ark_se_vec vec)

  -- The loop over the inner vectors, `n` of them from `pos` on: where each starts, and its length.
  unfoldable pub scan : List ℕ → ℕ → ℕ → ℕ → Attempt SerdeError (List (ℕ × ℕ))
  unfolding word
  scan raw es zero pos = done []
  scan raw es (suc n) pos =
      let inner_len = from_le_bytes (take 8 (drop pos raw)) in
      let start = pos + 8 in
      let end = (start + inner_len * es) % word in
      let others = scan raw es n end in
      if ltb (length raw) (pos + 8)
      then failed truncated_length
      else if ltb (length raw) end
      then failed truncated_elements
      else others >>= λ ranges. done ((start, inner_len) ∷ ranges)

  unfoldable pub read_ranges : List ℕ → ℕ → List (ℕ × ℕ) → Attempt SerdeError (List (List T))
  unfolding word
  read_ranges raw es [] = done []
  read_ranges raw es ((start, inner_len) ∷ ranges) =
      let others = read_ranges raw es ranges in
      elim (slice raw start ((start + inner_len * es) % word)) [
        | none ↦ panicked
        | some part ↦ par_chunks es part >>= λ ts. others >>= λ rest. done (ts ∷ rest)
      ]

  -- The size of an element, which the first inner vector shows.
  unfoldable pub par_ark_de_vec_vec : List ℕ → Attempt SerdeError (List (List T))
  unfolding word max_ranges max_vectors
  par_ark_de_vec_vec raw =
      let outer_len = from_le_bytes (take 8 raw) in
      let first_inner_len = from_le_bytes (take 8 (drop 8 raw)) in
      if ltb (length raw) 8
      then failed no_length_prefix
      else if outer_len == 0
      then done []
      else if ltb (length raw) 16
      then failed truncated_length
      else if first_inner_len == 0
      then if not (length raw == (8 + outer_len * 8) % word)
        then failed trailing_bytes
        else if ltb max_vectors outer_len
        then panicked
        else done (replicate outer_len [])
      else elim (deserialize_unchecked (drop 16 raw)) [
        | none ↦ failed invalid_element
        | some trial ↦
            if ltb max_ranges outer_len
            then panicked
            else scan raw trial.1 outer_len 8 >>= λ ranges. read_ranges raw trial.1 ranges
      ]
