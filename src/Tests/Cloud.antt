-- ===== src/Tests/Cloud.antt =====
-- An upload at a concrete input: a bucket in memory, with the URLs of one contributor's parts.
use text.Mathlib.Text.{◌==◌}
use aptos_setup_ceremony.Base
use aptos_setup_ceremony.Base.{
  ℕ, zero, suc, ◌<◌, ◌≡◌, ◌≢◌, refl, sym, ap, ◌∙◌, String, Bool, ◌&&◌, true, false, Option, none,
  some, List, [], ◌∷◌, ◌++◌, length, replicate, length-replicate, Memᴰ, Memᴰ-cons, inl, inr, arith,
  if◌then◌else◌, leb, Bool-cases,
}
use aptos_setup_ceremony.Crypto.Attempt.{done}
use aptos_setup_ceremony.Stateful.{Action}
use aptos_setup_ceremony.Server.Error.{FilesError}
use aptos_setup_ceremony.Server.Store.ContributionFiles.{
  Cloud, ContributionFilesStore, ObjectName, contribution_bin, part_of, test_download_blob,
  object_url, object_name, part_object_name, gather, hex_key,
}
use aptos_setup_ceremony.Server.Store.ContributionFiles.Bucket.{Removed, Written, Stored, IsBucket}
use aptos_setup_ceremony.Server.Store.ContributionFiles.RoundTrip.{IsUpload}
use aptos_setup_ceremony.Serde.Slices.{append_nil}
use aptos_setup_ceremony.Tests.Ceremony.{alice}

abbrev same_digits : List ℕ → List ℕ → Bool
same_digits [] [] = true
same_digits (x ∷ xs) (y ∷ ys) = Base.◌==◌ x y && same_digits xs ys
same_digits _ _ = false

same_digits_iff :
    (xs ys : List ℕ) → (same_digits xs ys ≡ true → xs ≡ ys) × (xs ≡ ys → same_digits xs ys ≡ true)
same_digits_iff [] [] = (λ h. refl, λ e. refl)
same_digits_iff [] (y ∷ ys) = (λ h. ground arith, λ e. ground arith)
same_digits_iff (x ∷ xs) [] = (λ h. ground arith, λ e. ground arith)
same_digits_iff (x ∷ xs) (y ∷ ys) = (
  λ h. ground (arith, Base.==_iff x y, same_digits_iff xs ys, h),
  λ e. ground (arith, Base.==_iff x y, same_digits_iff xs ys, e),
)

abbrev same_name : ObjectName → ObjectName → Bool
same_name (contribution_bin k) (contribution_bin l) = same_digits k l
same_name (part_of n i) (part_of m j) = same_name n m && Base.◌==◌ i j
same_name test_download_blob test_download_blob = true
same_name _ _ = false

same_name_iff : (n m : ObjectName) → (same_name n m ≡ true → n ≡ m) × (n ≡ m → same_name n m ≡ true)
same_name_iff (contribution_bin k) (contribution_bin l) = (
  λ h. ap contribution_bin ((same_digits_iff k l).0 h),
  λ e. ground (arith, same_digits_iff k l, e),
)
same_name_iff (contribution_bin k) (part_of m j) = (λ h. ground arith, λ e. ground arith)
same_name_iff (contribution_bin k) test_download_blob = (λ h. ground arith, λ e. ground arith)
same_name_iff (part_of n i) (contribution_bin l) = (λ h. ground arith, λ e. ground arith)
same_name_iff (part_of n i) (part_of m j) = (
  λ h. ground (arith, Base.==_iff i j, same_name_iff n m, h),
  λ e. ground (arith, Base.==_iff i j, same_name_iff n m, e),
)
same_name_iff (part_of n i) test_download_blob = (λ h. ground arith, λ e. ground arith)
same_name_iff test_download_blob (contribution_bin l) = (λ h. ground arith, λ e. ground arith)
same_name_iff test_download_blob (part_of m j) = (λ h. ground arith, λ e. ground arith)
same_name_iff test_download_blob test_download_blob = (λ h. refl, λ e. refl)

-- The files of the bucket.
abbrev pub Files : Type 0
Files = ObjectName → Option (List ℕ)

abbrev pub with_file : ObjectName → Option (List ℕ) → Files → Files
with_file n v s k = if same_name k n then v else s k

abbrev there : Option (List ℕ) → ℕ
there none = 404
there (some b) = 200

abbrev or_empty : Option (List ℕ) → List ℕ
or_empty none = []
or_empty (some b) = b

abbrev all_of : Files → List ObjectName → List ℕ
all_of s [] = []
all_of s (n ∷ ns) = or_empty (s n) ++ all_of s ns

abbrev pub named : ObjectName → String
named (part_of n zero) = "0"
named (part_of n (suc zero)) = "1"
named (part_of n (suc (suc zero))) = "2"
named (part_of n (suc (suc (suc zero)))) = "3"
named (part_of n (suc (suc (suc (suc zero))))) = "4"
named (part_of n (suc (suc (suc (suc (suc zero)))))) = "5"
named (part_of n (suc (suc (suc (suc (suc (suc zero))))))) = "6"
named _ = "7"

abbrev index : String → ℕ
index u =
    if u == "0"
    then 0
    else if u == "1"
    then 1
    else if u == "2"
    then 2
    else if u == "3"
    then 3
    else if u == "4"
    then 4
    else if u == "5"
    then 5
    else if u == "6"
    then 6
    else 7

abbrev pub cloud : Cloud
cloud = record {
  St = Files;
  provider = λ s. (done tt, s);
  token = λ s. (done "token", s);
  http_get = λ url t s. elim url [ object_url base bucket n ↦ (done (there (s n), ""), s) ];
  http_delete =
      λ url t s. elim url [ object_url base bucket n ↦ (done (204, ""), with_file n none s) ];
  get_bucket = λ b s. (done tt, s);
  create_bucket = λ b p s. (done tt, s);
  compose_object = λ b n ns s. (done tt, with_file n (some (all_of s ns)) s);
  read_object = λ b n s. (done (or_empty (s n) ∷ []), s);
  write_object = λ b n bytes s. (done tt, with_file n (some bytes) s);
  sign_url = λ b n m secs s. (done (named n), s);
  as_bytes = λ k. replicate k 1;
}

abbrev pub store : ContributionFilesStore
store = record { bucket_id = "b"; project_id = "p"; base_url = "https://storage.example.org" }

abbrev pub objects : Files → ObjectName → Option (List ℕ)
objects s n = s n

-- The part of Alice that a URL is for.
abbrev pub Opens : String → ObjectName → Type 0
Opens u n = n ≡ part_object_name cloud alice (index u)

abbrev pub put_part : String → List ℕ → Action FilesError Files (Unit {0})
put_part u b s = (done tt, with_file (part_object_name cloud alice (index u)) (some b) s)

with_file-same :
    (n k : ObjectName) (v : Option (List ℕ)) (s : Files) → k ≡ n → with_file n v s k ≡ v
with_file-same n k v s e = ground (arith, same_name_iff k n, e)

with_file-other :
    (n k : ObjectName) (v : Option (List ℕ)) (s : Files) → k ≢ n → with_file n v s k ≡ s k
with_file-other n k v s d = ground (arith, same_name_iff k n, d)

with_file-Removed :
    (n : ObjectName) (s : Files) → Removed cloud objects (n ∷ []) s (with_file n none s)
with_file-Removed n s = record {
  gone = λ k m. elim (Memᴰ-cons m) [ inl e ↦ with_file-same n k none s e | inr t ↦ elim t [ ] ];
  kept = λ k m. with_file-other n k none s (λ e. m (Memᴰ.head e));
  absent = λ k e. elim (Bool-cases (same_name k n)) [
    | inl h ↦ ground (arith, h)
    | inr h ↦ ground (arith, h, e)
  ];
}

with_file-Written :
    (n : ObjectName) (b : List ℕ) (s : Files) → Written cloud objects n b s (with_file n (some b) s)
with_file-Written n b s = record {
  stored = with_file-same n n (some b) s refl;
  others = λ k d. with_file-other n k (some b) s d;
}

all_of-gather :
    (ns : List ObjectName) (bs : List (List ℕ)) (s : Files)
    → Stored cloud objects s ns bs
    → all_of s ns ≡ gather cloud store bs
all_of-gather [] [] s h = refl
all_of-gather [] (b ∷ bs) s h = absurd h
all_of-gather (n ∷ ns) [] s h = absurd h
all_of-gather (n ∷ ns) (b ∷ bs) s (e, h) = λ i. or_empty (e i) ++ all_of-gather ns bs s h i

named-index : (i : ℕ) → i < 8 → index (named (part_object_name cloud alice i)) ≡ i
unfolding part_object_name object_name hex_key
named-index zero h = refl
named-index (suc zero) h = refl
named-index (suc (suc zero)) h = refl
named-index (suc (suc (suc zero))) h = refl
named-index (suc (suc (suc (suc zero)))) h = refl
named-index (suc (suc (suc (suc (suc zero))))) h = refl
named-index (suc (suc (suc (suc (suc (suc zero)))))) h = refl
named-index (suc (suc (suc (suc (suc (suc (suc zero))))))) h = refl
named-index (suc (suc (suc (suc (suc (suc (suc (suc i)))))))) h = absurd (omega arith)

pub cloud-IsBucket : IsBucket cloud objects store Opens alice
cloud-IsBucket = record {
  provided = λ s. refl;
  token_given = λ s. ("token", refl);
  found = λ n t s b e. ("", ap (λ v. (done (there v, ""), s)) e);
  missing = λ n t s e. ("", ap (λ v. (done (there v, ""), s)) e);
  deleted = λ n t s b e. (with_file n none s, "", refl, with_file-Removed n s);
  composed = λ n ns bs s h. (
    with_file n (some (gather cloud store bs)) s,
    ap (λ b. (done tt, with_file n (some b) s)) (all_of-gather ns bs s h),
    with_file-Written n (gather cloud store bs) s,
  );
  read = λ n s b e. (or_empty (s n) ∷ [], refl, append_nil (or_empty (s n)) ∙ ap or_empty e);
  signed = λ i s h. (
    named (part_object_name cloud alice i),
    refl,
    ap (part_object_name cloud alice) (sym (named-index i h)),
  );
}

pub put_part-IsUpload : IsUpload cloud objects put_part Opens
put_part-IsUpload = record {
  puts = λ u n b s e. (
    with_file (part_object_name cloud alice (index u)) (some b) s,
    refl,
    record {
      stored = with_file-same (part_object_name cloud alice (index u)) n (some b) s e;
      others = λ k d.
          with_file-other (part_object_name cloud alice (index u)) k (some b) s
            (λ q. d (q ∙ sym e));
    },
  );
}
