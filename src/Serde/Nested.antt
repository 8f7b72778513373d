-- ===== src/Serde/Nested.antt =====
-- Vectors of vectors whose first one holds a value, written and read:
-- `par_ark_se_vec_vec` and `par_ark_de_vec_vec` of common/src/parallel_ark_serde.rs.
use aptos_setup_ceremony.Base.{
  ℕ, suc, ◌+◌, ◌-◌, ◌*◌, ◌%◌, ◌≤◌, ◌<◌, ◌≡◌, refl, sym, ap, ◌∙◌, ◌==◌, List, [], ◌∷◌, ◌++◌, map,
  length, take, drop, arith, length-append, some, true, false, ltb, leb,
}
use aptos_setup_ceremony.Crypto.Attempt.{done}
use aptos_setup_ceremony.Serde.{
  Canonical, concat, word, max_ranges, slice, scan, read_ranges, par_chunks, par_ark_se_vec,
  par_ark_se_vec_vec, par_ark_de_vec_vec,
}
use aptos_setup_ceremony.Serde.Words.{
  to_le_bytes, from_le_bytes, to_le_bytes-length, from_le_bytes-to_le_bytes, limit,
}
use aptos_setup_ceremony.Serde.Slices.{take-append_size, drop-append_size, append_assoc}
use aptos_setup_ceremony.Serde.Flat.{IsCanonical, concat-length, par_chunks-concat}

slice-fits :
    (raw : List ℕ) (start n : ℕ) (part : List ℕ) {rest : List ℕ}
    → start + n ≤ length raw
    → drop start raw ≡ rest
    → take n rest ≡ part
    → slice raw start (start + n) ≡ some part
unfolding slice
slice-fits raw start n part {rest} fits d t =
    let low : leb start (start + n) ≡ true = ground arith in
    let high : leb (start + n) (length raw) ≡ true = ground arith in
    let width : (start + n) - start ≡ n = omega arith in rw (low, high, width, d, t) refl

pub max_ranges-lt : max_ranges < limit 8
unfolding max_ranges limit
max_ranges-lt = omega arith

pub no_wrap : (n w : ℕ) → n < w → n % w ≡ n
no_wrap n w h = grind arith

module _ (K : Canonical) where
  open K use {T, serialize}

  -- The bytes of the elements, without the length in front.
  abbrev pub body : List T → List ℕ
  body v = concat (map serialize v)

  -- The bytes of some inner vectors.
  abbrev pub inner : List (List T) → List ℕ
  inner vs = concat (map (par_ark_se_vec K) vs)

  -- Each length fits into eight bytes.
  abbrev pub AllShort : List (List T) → Type 0
  AllShort [] = Unit {0}
  AllShort (v ∷ vs) = (length v < limit 8) × AllShort vs

  inner-split :
      (pre : List ℕ) (v : List T) (vs : List (List T))
      → pre ++ inner (v ∷ vs) ≡ pre ++ (to_le_bytes 8 (length v) ++ (body v ++ inner vs))
  unfolding par_ark_se_vec
  inner-split pre v vs =
      ap (λ t. pre ++ t) (append_assoc (to_le_bytes 8 (length v)) (body v) (inner vs))

  module _ (size : ℕ) (L : IsCanonical K size) where
    -- Where the inner vectors stand.
    abbrev ranges : ℕ → List (List T) → List (ℕ × ℕ)
    ranges pos [] = []
    ranges pos (v ∷ vs) = (pos + 8, length v) ∷ ranges (pos + 8 + length v * size) vs

    -- What is read at the place of an inner vector.
    pub record Place (raw pre : List ℕ) (v : List T) (vs : List (List T)) : Type 0 where
      pub count_read : from_le_bytes (take 8 (drop (length pre) raw)) ≡ length v
      pub fits : length pre + 8 + length v * size ≤ length raw
      pub part : slice raw (length pre + 8) (length pre + 8 + length v * size) ≡ some (body v)
      pub next : List ℕ
      pub next_length : length next ≡ length pre + 8 + length v * size
      pub next_raw : raw ≡ next ++ inner vs

    pub place :
        (raw pre : List ℕ) (v : List T) (vs : List (List T))
        → raw ≡ pre ++ inner (v ∷ vs)
        → length v < limit 8
        → Place raw pre v vs
    place raw pre v vs e h =
        let head = to_le_bytes 8 (length v) in
        let rest = body v ++ inner vs in
        let hl : length head ≡ 8 = to_le_bytes-length 8 (length v) in
        let bl : length (body v) ≡ length v * size = concat-length K size L v in
        let raw_is : raw ≡ pre ++ (head ++ rest) = e ∙ inner-split pre v vs in
        let at : drop (length pre) raw ≡ head ++ rest =
          ap (drop (length pre)) raw_is ∙ drop-append_size (length pre) pre (head ++ rest) refl in
        let raw_next : raw ≡ (pre ++ (head ++ body v)) ++ inner vs =
          raw_is
          ∙ ap (λ t. pre ++ t) (sym (append_assoc head (body v) (inner vs)))
          ∙ sym (append_assoc pre (head ++ body v) (inner vs)) in
        let long : length (pre ++ (head ++ body v)) ≡ length pre + 8 + length v * size =
          length-append pre (head ++ body v)
          ∙ ap (λ n. length pre + n) (length-append head (body v))
          ∙ (omega arith) in
        let whole = ap length raw_next ∙ length-append (pre ++ (head ++ body v)) (inner vs) in
        let raw_start : raw ≡ (pre ++ head) ++ rest = raw_is ∙ sym (append_assoc pre head rest) in
        let start : length (pre ++ head) ≡ length pre + 8 =
          length-append pre head ∙ ap (λ n. length pre + n) hl in
        record {
          count_read =
              ap (λ t. from_le_bytes (take 8 t)) at
              ∙ ap from_le_bytes (take-append_size 8 head rest hl)
              ∙ from_le_bytes-to_le_bytes 8 (length v) h;
          fits = omega arith;
          part =
              slice-fits raw (length pre + 8) (length v * size) (body v) (omega arith)
                (ap (drop (length pre + 8)) raw_start
                  ∙ drop-append_size (length pre + 8) (pre ++ head) rest start)
                (take-append_size (length v * size) (body v) (inner vs) bl);
          next = pre ++ (head ++ body v);
          next_length = long;
          next_raw = raw_next;
        }

    scan-ranges :
        (raw pre : List ℕ) (vs : List (List T))
        → raw ≡ pre ++ inner vs
        → AllShort vs
        → length raw < word
        → scan K raw size (length vs) (length pre) ≡ done (ranges (length pre) vs)
    unfolding scan
    scan-ranges raw pre [] e a w = refl
    scan-ranges raw pre (v ∷ vs) e (h, a) w =
        let p = place raw pre v vs e h in
        let wrap : (length pre + 8 + length v * size) % word ≡ length pre + 8 + length v * size =
          no_wrap _ word (let f = p.fits in omega arith) in
        let f = p.fits in
        let short : ltb (length raw) (length pre + 8) ≡ false = ground arith in
        let shorter : ltb (length raw) (length pre + 8 + length v * size) ≡ false = ground arith in
        let others : scan K raw size (length vs) (length pre + 8 + length v * size)
            ≡ done (ranges (length pre + 8 + length v * size) vs) =
          ap (λ n. scan K raw size (length vs) n) (sym p.next_length)
          ∙ scan-ranges raw p.next vs p.next_raw a w
          ∙ ap (λ n. done (ranges n vs)) p.next_length in
        rw (p.count_read, wrap, short, shorter, others) refl

    read_ranges-cons :
        (raw : List ℕ) (start n : ℕ) (part : List ℕ) (rs : List (ℕ × ℕ)) (v : List T)
        (vs : List (List T))
        → slice raw start ((start + n * size) % word) ≡ some part
        → par_chunks K size part ≡ done v
        → read_ranges K raw size rs ≡ done vs
        → read_ranges K raw size ((start, n) ∷ rs) ≡ done (v ∷ vs)
    unfolding read_ranges
    read_ranges-cons raw start n part rs v vs e f g = rw (read_ranges, e, f, g) refl

    read_ranges-ranges :
        (raw pre : List ℕ) (vs : List (List T))
        → raw ≡ pre ++ inner vs
        → AllShort vs
        → length raw < word
        → read_ranges K raw size (ranges (length pre) vs) ≡ done vs
    unfolding read_ranges
    read_ranges-ranges raw pre [] e a w = refl
    read_ranges-ranges raw pre (v ∷ vs) e (h, a) w =
        let p = place raw pre v vs e h in
        let wrap : (length pre + 8 + length v * size) % word ≡ length pre + 8 + length v * size =
          no_wrap _ word (let f = p.fits in omega arith) in
        let others : read_ranges K raw size (ranges (length pre + 8 + length v * size) vs)
            ≡ done vs =
          ap (λ n. read_ranges K raw size (ranges n vs)) (sym p.next_length)
          ∙ read_ranges-ranges raw p.next vs p.next_raw a w in
        read_ranges-cons raw (length pre + 8) (length v) (body v) _ v vs
          (ap (slice raw (length pre + 8)) wrap ∙ p.part) (par_chunks-concat K size L v) others

    pub decode-filled :
        (raw : List ℕ) (n m : ℕ) (t : T) (rs : List (ℕ × ℕ)) (vss : List (List T))
        → from_le_bytes (take 8 raw) ≡ suc n
        → from_le_bytes (take 8 (drop 8 raw)) ≡ suc m
        → 16 ≤ length raw
        → K.deserialize_unchecked (drop 16 raw) ≡ some (t, size)
        → suc n ≤ max_ranges
        → scan K raw size (suc n) 8 ≡ done rs
        → read_ranges K raw size rs ≡ done vss
        → par_ark_de_vec_vec K raw ≡ done vss
    unfolding par_ark_de_vec_vec
    decode-filled raw n m t rs vss outer first long trial few scanned collected =
        let short : ltb (length raw) 8 ≡ false = ground arith in
        let shorter : ltb (length raw) 16 ≡ false = ground arith in
        let enough : ltb max_ranges (suc n) ≡ false = ground arith in
        let some_outer : (suc n == 0) ≡ false = ground arith in
        let some_inner : (suc m == 0) ≡ false = ground arith in
        rw (outer, first, short, shorter, some_outer, some_inner, trial, outer, enough, scanned)
          collected

    -- What is read of the bytes of inner vectors behind their number, where the first one holds a
    -- value.
    pub filled :
        (t : T) (ts : List T) (vs : List (List T))
        → AllShort ((t ∷ ts) ∷ vs)
        → suc (length vs) ≤ max_ranges
        → length (par_ark_se_vec_vec K ((t ∷ ts) ∷ vs)) < word
        → par_ark_de_vec_vec K (par_ark_se_vec_vec K ((t ∷ ts) ∷ vs)) ≡ done ((t ∷ ts) ∷ vs)
    unfolding par_ark_se_vec_vec
    filled t ts vs (h, a) few w =
        let vss = (t ∷ ts) ∷ vs in
        let head = to_le_bytes 8 (suc (length vs)) in
        let raw = head ++ inner vss in
        let hl : length head ≡ 8 = to_le_bytes-length 8 (suc (length vs)) in
        let p = place raw head (t ∷ ts) vs refl h in
        let f = p.fits in
        let outer : from_le_bytes (take 8 raw) ≡ suc (length vs) =
          ap from_le_bytes (take-append_size 8 head (inner vss) hl)
          ∙ from_le_bytes-to_le_bytes 8 (suc (length vs)) (let m = max_ranges-lt in omega arith) in
        let first : from_le_bytes (take 8 (drop 8 raw)) ≡ suc (length ts) =
          ap (λ n. from_le_bytes (take 8 (drop n raw))) (sym hl) ∙ p.count_read in
        let front = to_le_bytes 8 (suc (length ts)) in
        let rest = concat (map serialize ts) ++ inner vs in
        let fl : length front ≡ 8 = to_le_bytes-length 8 (suc (length ts)) in
        let split : raw ≡ (head ++ front) ++ (serialize t ++ rest) =
          inner-split head (t ∷ ts) vs
          ∙ ap (λ b. head ++ (front ++ b))
              (append_assoc (serialize t) (concat (map serialize ts)) (inner vs))
          ∙ sym (append_assoc head front (serialize t ++ rest)) in
        let sixteen : length (head ++ front) ≡ 16 = length-append head front ∙ (omega arith) in
        let trial : K.deserialize_unchecked (drop 16 raw) ≡ some (t, size) =
          ap K.deserialize_unchecked
            (ap (drop 16) split ∙ drop-append_size 16 (head ++ front) (serialize t ++ rest) sixteen)
          ∙ L.deserialize_unchecked-serialize t rest in
        let scanned : scan K raw size (suc (length vs)) 8 ≡ done (ranges 8 vss) =
          ap (λ n. scan K raw size (suc (length vs)) n) (sym hl)
          ∙ scan-ranges raw head vss refl (h, a) w
          ∙ ap (λ n. done (ranges n vss)) hl in
        let collected : read_ranges K raw size (ranges 8 vss) ≡ done vss =
          ap (λ n. read_ranges K raw size (ranges n vss)) (sym hl)
          ∙ read_ranges-ranges raw head vss refl (h, a) w in
        decode-filled raw (length vs) (length ts) t (ranges 8 vss) vss outer first (omega arith)
          trial few scanned collected
