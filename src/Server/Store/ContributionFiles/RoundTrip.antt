-- ===== src/Server/Store/ContributionFiles/RoundTrip.antt =====
-- An upload from its plan to its end, and the download of it: common/src/upload.rs with
-- server/src/store/contribution_files.rs.
use aptos_setup_ceremony.Base.{
  ℕ, ◌/◌, ◌%◌, ◌<◌, ◌≡◌, ◌≢◌, refl, sym, ap, subst, ◌∙◌, String, Option, some, List, [], ◌∷◌, ◌++◌,
  map, Memᴰ, Memᴰ-cons, inl, inr, arith,
}
use aptos_setup_ceremony.Contributor.{Contributor}
use aptos_setup_ceremony.Crypto.Attempt.{done}
use aptos_setup_ceremony.Stateful.{Action, indices, for_each}
use aptos_setup_ceremony.Upload.{send_parallel, upload_parallel-joined, joined}
use aptos_setup_ceremony.Server.Error.{FilesError}
use aptos_setup_ceremony.Server.Store.ContributionFiles.{
  Cloud, ContributionFilesStore, ObjectName, contribution_bin, hex_key, parallel_upload_parts,
  object_name, gather, get_upload_plan, finalize_upload, download_contribution,
}
use aptos_setup_ceremony.Server.Store.ContributionFiles.Bucket.{Written, Stored, IsBucket}
use aptos_setup_ceremony.Server.Store.ContributionFiles.Plan.{
  parts_of, AllOpen, get_upload_plan-Removed,
}
use aptos_setup_ceremony.Server.Store.ContributionFiles.Finalize.{
  Distinct, indices-Distinct, parts-Distinct, finalize_upload-Written, download_contribution-stored,
}

-- Every byte of the key is below 256, and different keys have different bytes.
pub record IsKeyEncoding (as_bytes : ℕ → List ℕ) : Type 0 where
  pub small : (k b : ℕ) → Memᴰ b (as_bytes k) → b < 256
  pub injective : (k l : ℕ) → as_bytes k ≡ as_bytes l → k ≡ l

digits : (b d : ℕ) → b / 16 ≡ d / 16 → b % 16 ≡ d % 16 → b ≡ d
digits b d e f = omega arith

abbrev tail : List ℕ → List ℕ
tail [] = []
tail (x ∷ xs) = xs

abbrev head_or : List ℕ → ℕ
head_or [] = 0
head_or (x ∷ xs) = x

hex_key_injective : (xs ys : List ℕ) → hex_key xs ≡ hex_key ys → xs ≡ ys
unfolding hex_key
hex_key_injective [] [] e = refl
hex_key_injective [] (y ∷ ys) e = absurd (cc)
hex_key_injective (x ∷ xs) [] e = absurd (cc)
hex_key_injective (x ∷ xs) (y ∷ ys) e =
    let d : x ≡ y = digits x y (ap head_or e) (ap (λ zs. head_or (tail zs)) e) in
    let r : xs ≡ ys = hex_key_injective xs ys (ap (λ zs. tail (tail zs)) e) in λ i. d i ∷ r i

abbrev name_key : ObjectName → List ℕ
name_key (contribution_bin k) = k
name_key _ = []

-- Two keys that differ name two objects.
pub object_name_injective :
    (G : Cloud) (K : IsKeyEncoding G.as_bytes) (c d : Contributor)
    → object_name G c ≡ object_name G d
    → c.verifying_key ≡ d.verifying_key
unfolding object_name
object_name_injective G K c d e = K.injective _ _ (hex_key_injective _ _ (ap name_key e))

module _ (G : Cloud) (objects : G.St → ObjectName → Option (List ℕ)) where
  open G use {St}

  -- The request of one part through a URL that opens its object.
  pub record IsUpload (put_part : String → List ℕ → Action FilesError St (Unit {0}))
      (opens : String → ObjectName → Type 0) : Type 0 where
    pub puts :
        (u : String) (n : ObjectName) (b : List ℕ) (s : St)
        → opens u n
        → (s' : St) × (put_part u b s ≡ (done tt, s')) × Written G objects n b s s'

  -- The objects of the names may have changed, and no other.
  abbrev Touches : List ObjectName → St → St → Type 0
  Touches ns s s' = (k : ObjectName) → (Memᴰ k ns → ⊥) → objects s' k ≡ objects s k

  module _ (store : ContributionFilesStore) (opens : String → ObjectName → Type 0) (c : Contributor)
      (B : IsBucket G objects store opens c)
      (put_part : String → List ℕ → Action FilesError St (Unit {0}))
      (P : IsUpload put_part opens) where
    put_all-Stored :
        (ps : List (String × List ℕ)) (ns : List ObjectName) (s : St)
        → AllOpen opens (map (λ p. p.0) ps) ns
        → Distinct ns
        → (s' : St) × (for_each (λ p. put_part p.0 p.1) ps s ≡ (done tt, s'))
          × Stored G objects s' ns (map (λ p. p.1) ps)
          × Touches ns s s'
    put_all-Stored [] [] s o d = (s, refl, tt, λ k m. refl)
    put_all-Stored [] (n ∷ ns) s o d = absurd o
    put_all-Stored (p ∷ ps) [] s o d = absurd o
    put_all-Stored (p ∷ ps) (n ∷ ns) s (o, os) (d, ds) =
        let (s', e, w) = P.puts p.0 n p.1 s o in
        let (s'', e', h, t) = put_all-Stored ps ns s' os ds in
        (
          s'',
          rw (e, e') refl,
          (t n d ∙ w.stored, h),
          λ k m. t k (λ u. m (Memᴰ.tail u)) ∙ w.others k (λ q. m (Memᴰ.head q)),
        )

    gather-joined :
        (bytes : List ℕ) (ps : List (String × List ℕ))
        → gather G store (map (λ p. p.1) ps) ≡ joined bytes ps
    gather-joined bytes [] = refl
    gather-joined bytes (p ∷ ps) = ap (λ xs. p.1 ++ xs) (gather-joined bytes ps)

    send_parallel-Stored :
        (bytes : List ℕ) (us : List String) (n : ObjectName) (ns : List ObjectName) (s : St)
        → AllOpen opens us (n ∷ ns)
        → Distinct (n ∷ ns)
        → (s' : St) × (bs : List (List ℕ)) × (send_parallel bytes put_part us s ≡ (done tt, s'))
          × Stored G objects s' (n ∷ ns) bs
          × (gather G store bs ≡ bytes)
          × Touches (n ∷ ns) s s'
    unfolding send_parallel
    send_parallel-Stored bytes [] n ns s o d = absurd o
    send_parallel-Stored bytes (u ∷ us) n ns s o d =
        let (ps, found, named, whole) = upload_parallel-joined bytes u us in
        let (s', e, h, t) =
          put_all-Stored ps (n ∷ ns) s (subst (λ vs. AllOpen opens vs (n ∷ ns)) (sym named) o) d in
        (s', map (λ p. p.1) ps, rw (send_parallel, found) e, h, gather-joined bytes ps ∙ whole, t)

    -- While the cloud works, what is sent to the URLs of a contributor's upload plan is, after the end
    -- of the upload, what a download of the contributor's contribution gives. Each step succeeds, and
    -- the objects that are not the contributor's are as they were.
    pub download_contribution-finalize_upload :
        (bytes : List ℕ) (s : St)
        → (us : List String) × (s₁ s₂ s₃ : St) × (get_upload_plan G store c s ≡ (done us, s₁))
          × (send_parallel bytes put_part us s₁ ≡ (done tt, s₂))
          × (finalize_upload G store c s₂ ≡ (done tt, s₃))
          × (download_contribution G store c s₃ ≡ (done bytes, s₃))
          × ((n : ObjectName)
              → n ≢ object_name G c
              → (Memᴰ n (parts_of G c) → ⊥)
              → objects s₃ n ≡ objects s n)
    download_contribution-finalize_upload bytes s =
        let (us, s₁, e, o, r) = get_upload_plan-Removed G objects store opens c B s in
        let (s₂, bs, e', h, whole, t) = send_parallel-Stored bytes us _ _ s₁ o (
          parts-Distinct G c (indices 0 parallel_upload_parts)
            (indices-Distinct 0 parallel_upload_parts)) in
        let (s₃, e'', stored, gone, kept) =
          finalize_upload-Written G objects store opens c B bs s₂ h in
        (
          us,
          s₁,
          s₂,
          s₃,
          e,
          e',
          e'',
          download_contribution-stored G objects store opens c B c bytes s₃
              (stored ∙ ap some whole),
          λ n d m.
              kept n d m ∙ t n m ∙ r.kept n (λ u. elim (Memᴰ-cons u) [ inl q ↦ d q | inr v ↦ m v ]),
        )
