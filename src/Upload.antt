-- ===== src/Upload.antt =====
-- The upload of bytes in one part per URL: common/src/upload.rs. The slicing gives what is sent to
-- which URL. `put_part` is the request of one part, with the test of its response, and the requests,
-- which the code makes side by side, are made in the order of the parts.
use aptos_setup_ceremony.Base.{
  ℕ, zero, suc, ◌+◌, ◌-◌, ◌*◌, ◌/◌, ◌%◌, ◌≤◌, ◌≡◌, refl, sym, ap, ◌∙◌, String, true, Option, none,
  some, List, [], ◌∷◌, ◌++◌, map, length, take, drop, take-append-drop, ltb, leb, arith,
  if◌then◌else◌,
}
use aptos_setup_ceremony.Crypto.Attempt.{panicked}
use aptos_setup_ceremony.Stateful.{Action, lift, for_each}

module _ (bytes : List ℕ) where
  -- `bytes[offset..offset + part_len]`, which panics out of range.
  unfoldable pub slice : ℕ → ℕ → Option (List ℕ)
  slice offset part_len =
      if leb (offset + part_len) (length bytes)
      then some (take part_len (drop offset bytes))
      else none

  -- The loop, from the part `i` on.
  unfoldable pub parts : ℕ → ℕ → ℕ → ℕ → List String → Option (List (String × List ℕ))
  unfolding slice
  parts base rem i offset [] = some []
  parts base rem i offset (url ∷ urls) =
      let part_len = base + (if ltb i rem then 1 else 0) in
      let others = parts base rem (suc i) (offset + part_len) urls in
      elim (slice offset part_len) [
        | none ↦ none
        | some part ↦ elim others [ none ↦ none | some rest ↦ some ((url, part) ∷ rest) ]
      ]

  -- `none` is a panic.
  unfoldable pub upload_parallel : List String → Option (List (String × List ℕ))
  unfolding parts
  upload_parallel [] = none
  upload_parallel (url ∷ urls) =
      let n = length (url ∷ urls) in parts (length bytes / n) (length bytes % n) 0 0 (url ∷ urls)

  unfoldable pub send_parallel :
      {E S : Type 0}
      → (String → List ℕ → Action E S (Unit {0}))
      → List String
      → Action E S (Unit {0})
  unfolding upload_parallel
  send_parallel put_part urls = elim (upload_parallel urls) [
    | none ↦ lift panicked
    | some ps ↦ for_each (λ p. put_part p.0 p.1) ps
  ]

  abbrev pub joined : List (String × List ℕ) → List ℕ
  joined [] = []
  joined (p ∷ ps) = p.1 ++ joined ps

  drop-all : (n : ℕ) (xs : List ℕ) → length xs ≤ n → drop n xs ≡ []
  drop-all zero [] e = refl
  drop-all zero (x ∷ xs) e = absurd (omega arith)
  drop-all (suc n) [] e = refl
  drop-all (suc n) (x ∷ xs) e = drop-all n xs (omega arith)

  drop-drop : (n k : ℕ) (xs : List ℕ) → drop k (drop n xs) ≡ drop (n + k) xs
  drop-drop zero k xs = let e : k ≡ zero + k = omega arith in ap (λ j. drop j xs) e
  drop-drop (suc n) k [] =
      let e : suc n + k ≡ suc (n + k) = omega arith in rw e (drop-all k [] (omega arith))
  drop-drop (suc n) k (x ∷ xs) =
      let e : suc n + k ≡ suc (n + k) = omega arith in rw e (drop-drop n k xs)

  slice-take :
      (offset part_len : ℕ)
      → leb (offset + part_len) (length bytes) ≡ true
      → slice offset part_len ≡ some (take part_len (drop offset bytes))
  unfolding slice
  slice-take offset part_len e = ground arith

  abbrev part_size : ℕ → ℕ → ℕ → ℕ
  part_size base rem i = base + (if ltb i rem then 1 else 0)

  parts-cons :
      (base rem i offset : ℕ) (url : String) (urls : List String) (part : List ℕ)
      (ps : List (String × List ℕ))
      → slice offset (part_size base rem i) ≡ some part
      → parts base rem (suc i) (offset + part_size base rem i) urls ≡ some ps
      → parts base rem i offset (url ∷ urls) ≡ some ((url, part) ∷ ps)
  unfolding parts
  parts-cons base rem i offset url urls part ps e f = rw (parts, e, f) refl

  parts-joined :
      (base rem i offset : ℕ) (urls : List String)
      → length urls * base + (rem - i) + offset ≡ length bytes
      → rem - i ≤ length urls
      → (ps : List (String × List ℕ)) × (parts base rem i offset urls ≡ some ps)
        × (map (λ p. p.0) ps ≡ urls)
        × (joined ps ≡ drop offset bytes)
  unfolding parts
  parts-joined base rem i offset [] e le =
      ([], refl, refl, sym (drop-all offset bytes (grind arith)))
  parts-joined base rem i offset (url ∷ urls) e le =
      let part_len = part_size base rem i in
      let whole : suc (length urls) * base ≡ base + length urls * base = grind arith in
      let left : (rem - i) ≡ (if ltb i rem then 1 else 0) + (rem - suc i) = ground arith in
      let (ps, found, named, rest) =
        parts-joined base rem (suc i) (offset + part_len) urls (omega arith) (omega arith) in
      let fits : leb (offset + part_len) (length bytes) ≡ true = ground arith in
      (
        (url, take part_len (drop offset bytes)) ∷ ps,
        parts-cons base rem i offset url urls _ ps (slice-take offset part_len fits) found,
        ap (λ us. url ∷ us) named,
        ap (λ xs. take part_len (drop offset bytes) ++ xs)
              (rest ∙ sym (drop-drop offset part_len bytes))
            ∙ take-append-drop part_len (drop offset bytes),
      )

-- To a list of at least one URL the bytes are sent in one part each, in the order of the URLs, without
-- a panic, and the parts make up the bytes.
pub upload_parallel-joined :
    (bytes : List ℕ) (url : String) (urls : List String)
    → (ps : List (String × List ℕ)) × (upload_parallel bytes (url ∷ urls) ≡ some ps)
      × (map (λ p. p.0) ps ≡ url ∷ urls)
      × (joined bytes ps ≡ bytes)
unfolding upload_parallel
upload_parallel-joined bytes url urls =
    parts-joined bytes (length bytes / suc (length urls)) (length bytes % suc (length urls)) 0 0
      (url ∷ urls) (grind arith) (grind arith)
