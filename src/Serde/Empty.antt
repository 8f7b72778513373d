-- ===== src/Serde/Empty.antt =====
-- Vectors of vectors whose first one is empty, and all vectors of vectors that are read back:
-- `par_ark_se_vec_vec` and `par_ark_de_vec_vec` of common/src/parallel_ark_serde.rs.
use aptos_setup_ceremony.Base.{
  ℕ, zero, suc, ◌+◌, ◌*◌, ◌%◌, ◌≤◌, ◌<◌, ◌≡◌, ◌≢◌, refl, sym, ap, ◌∙◌, ==_iff, ◌==◌, List, [], ◌∷◌,
  ◌++◌, length, take, drop, replicate, arith, length-append, false, Memᴰ, Memᴰ-cons, ◌⊎◌, inl, inr,
  ltb, if◌then◌else◌, length-replicate,
}
use aptos_setup_ceremony.Crypto.Attempt.{done, failed, panicked}
use aptos_setup_ceremony.Serde.{
  Canonical, word, max_ranges, max_vectors, par_ark_se_vec, par_ark_se_vec_vec, par_ark_de_vec_vec,
  trailing_bytes,
}
use aptos_setup_ceremony.Serde.Words.{
  to_le_bytes, from_le_bytes, to_le_bytes-length, from_le_bytes-to_le_bytes, limit,
}
use aptos_setup_ceremony.Serde.Slices.{take-append_size}
use aptos_setup_ceremony.Serde.Nested.{body, inner, AllShort, place, filled, max_ranges-lt, no_wrap}
use aptos_setup_ceremony.Serde.Flat.{IsCanonical, concat-length}

max_vectors-max_ranges : max_vectors ≤ max_ranges
unfolding max_vectors max_ranges
max_vectors-max_ranges = omega arith

max_ranges-word : 8 + max_ranges * 8 < word
unfolding max_ranges word
max_ranges-word = omega arith

module _ (K : Canonical) where
  open K use {T}

  module _ (size : ℕ) (L : IsCanonical K size) where
    decode_empty :
        (raw : List ℕ) (n k : ℕ)
        → from_le_bytes (take 8 raw) ≡ suc n
        → from_le_bytes (take 8 (drop 8 raw)) ≡ 0
        → length raw ≡ 16 + k
        → suc n ≤ max_ranges
        → par_ark_de_vec_vec K raw ≡ (
            if k == n * 8
            then if ltb max_vectors (suc n) then panicked else done (replicate (suc n) [])
            else failed trailing_bytes)
    unfolding par_ark_de_vec_vec
    decode_empty raw n k outer first whole few =
        let short : ltb (length raw) 8 ≡ false = ground arith in
        let shorter : ltb (length raw) 16 ≡ false = ground arith in
        let some_outer : (suc n == 0) ≡ false = ground arith in
        let small : 8 + suc n * 8 < word = (let m = max_ranges-word in omega arith) in
        let wrap : (8 + suc n * 8) % word ≡ 8 + suc n * 8 = no_wrap _ word small in
        let same : (length raw == 8 + suc n * 8) ≡ (k == n * 8) = ground arith in
        rw (outer, first, short, shorter, some_outer, wrap, same) (ground arith)

    -- Inner vectors whose first one is empty: only the size of the whole is looked at.
    first_empty :
        (vs : List (List T))
        → suc (length vs) ≤ max_ranges
        → length (par_ark_se_vec_vec K ([] ∷ vs)) < word
        → par_ark_de_vec_vec K (par_ark_se_vec_vec K ([] ∷ vs)) ≡ (
            if length (inner K vs) == length vs * 8
            then if ltb max_vectors (suc (length vs))
              then panicked
              else done (replicate (suc (length vs)) [])
            else failed trailing_bytes)
    unfolding par_ark_se_vec_vec
    first_empty vs few w =
        let head = to_le_bytes 8 (suc (length vs)) in
        let raw = head ++ inner K ([] ∷ vs) in
        let hl : length head ≡ 8 = to_le_bytes-length 8 (suc (length vs)) in
        let p = place K size L raw head [] vs refl (unfold limit in omega arith) in
        let outer : from_le_bytes (take 8 raw) ≡ suc (length vs) =
          ap from_le_bytes (take-append_size 8 head (inner K ([] ∷ vs)) hl)
          ∙ from_le_bytes-to_le_bytes 8 (suc (length vs)) (let m = max_ranges-lt in omega arith) in
        let first : from_le_bytes (take 8 (drop 8 raw)) ≡ 0 =
          ap (λ n. from_le_bytes (take 8 (drop n raw))) (sym hl) ∙ p.count_read in
        let whole : length raw ≡ 16 + length (inner K vs) =
          ap length p.next_raw
          ∙ length-append p.next (inner K vs)
          ∙ (let n = p.next_length in omega arith) in
        decode_empty raw (length vs) (length (inner K vs)) outer first whole few

    inner-replicate : (n : ℕ) → length (inner K (replicate n [])) ≡ n * 8
    unfolding par_ark_se_vec
    inner-replicate zero = omega arith
    inner-replicate (suc n) =
        let e = length-append (to_le_bytes 8 0 ++ []) (inner K (replicate n [])) in
        let f = length-append (to_le_bytes 8 0) [] in
        let g = to_le_bytes-length 8 0 in let ih = inner-replicate n in omega arith

    inner-le : (vs : List (List T)) → length vs * 8 ≤ length (inner K vs)
    unfolding par_ark_se_vec
    inner-le [] = omega arith
    inner-le (v ∷ vs) =
        let e = length-append (to_le_bytes 8 (length v) ++ body K v) (inner K vs) in
        let f = length-append (to_le_bytes 8 (length v)) (body K v) in
        let g = to_le_bytes-length 8 (length v) in let ih = inner-le vs in omega arith

    inner-lt :
        (vs : List (List T)) {v : List T} → Memᴰ v vs → v ≢ [] → length vs * 8 < length (inner K vs)
    unfolding par_ark_se_vec
    inner-lt [] m ne = elim m [ ]
    inner-lt (x ∷ xs) {v} m ne =
        let e = length-append (to_le_bytes 8 (length x) ++ body K x) (inner K xs) in
        let f = length-append (to_le_bytes 8 (length x)) (body K x) in
        let g = to_le_bytes-length 8 (length x) in
        let le = inner-le xs in
        let b = concat-length K size L x in
        elim (Memᴰ-cons m) [
          | inl h ↦ let big = filled_body x (λ z. ne (h ∙ z)) in omega arith
          | inr n ↦ let ih = inner-lt xs n ne in omega arith
        ]
      where
        filled_body : (x : List T) → x ≢ [] → 0 < length x * size
        filled_body [] ne = absurd (ne refl)
        filled_body (y ∷ ys) ne = let p = L.size_pos in grind arith

    -- A vector of vectors that is written is read back, if the first inner vector holds a value or all
    -- are empty, if each length fits into eight bytes and there are not more inner vectors than a
    -- vector holds, and if the bytes are fewer than 2 ^ 64.
    pub par_ark_de_vec_vec-par_ark_se_vec_vec :
        (vss : List (List T))
        → ((t : T) × (ts : List T) × (vs : List (List T)) × (vss ≡ (t ∷ ts) ∷ vs))
          ⊎ ((n : ℕ) × (vss ≡ replicate n []))
        → AllShort K vss
        → length vss ≤ max_vectors
        → length (par_ark_se_vec_vec K vss) < word
        → par_ark_de_vec_vec K (par_ark_se_vec_vec K vss) ≡ done vss
    unfolding par_ark_se_vec_vec
    par_ark_de_vec_vec-par_ark_se_vec_vec [] shape a few w =
        unfold par_ark_de_vec_vec in unfold to_le_bytes in unfold from_le_bytes in refl
    par_ark_de_vec_vec-par_ark_se_vec_vec ((t ∷ ts) ∷ vs) shape a few w =
        filled K size L t ts vs a (let m = max_vectors-max_ranges in omega arith) w
    par_ark_de_vec_vec-par_ark_se_vec_vec ([] ∷ vs) (inl (t, ts, us, e)) a few w = ground arith
    par_ark_de_vec_vec-par_ark_se_vec_vec ([] ∷ vs) (inr (zero, e)) a few w = ground arith
    par_ark_de_vec_vec-par_ark_se_vec_vec ([] ∷ vs) (inr (suc n, e)) a few w =
        let f : vs ≡ replicate n [] = ap (drop 1) e in
        let k : length (inner K vs) ≡ n * 8 =
          ap (λ us. length (inner K us)) f ∙ inner-replicate n in
        let l : length vs ≡ n = ap length f ∙ length-replicate n [] in
        let enough : ltb max_vectors (suc (length vs)) ≡ false = ground arith in
        first_empty vs (let m = max_vectors-max_ranges in omega arith) w
        ∙ rw ((==_iff (length (inner K vs)) (length vs * 8)).1 (omega arith), enough) refl
        ∙ ap (λ us. done ([] ∷ us)) (ap (λ j. replicate j []) l ∙ sym f)

    -- A vector of vectors whose first one is empty and that holds a value elsewhere is written, and
    -- what is written is refused by the reader.
    pub par_ark_de_vec_vec_refuses :
        (vs : List (List T)) {v : List T}
        → Memᴰ v vs
        → v ≢ []
        → suc (length vs) ≤ max_ranges
        → length (par_ark_se_vec_vec K ([] ∷ vs)) < word
        → par_ark_de_vec_vec K (par_ark_se_vec_vec K ([] ∷ vs)) ≡ failed trailing_bytes
    par_ark_de_vec_vec_refuses vs m ne few w =
        let big = inner-lt vs m ne in first_empty vs few w ∙ ground arith
