-- ===== src/Server/Store/ContributionFiles/Finalize.antt =====
-- The end of an upload: server/src/store/contribution_files.rs, with the parts as
-- common/src/upload.rs sends them.
use aptos_setup_ceremony.Base.{
  ℕ, zero, suc, ◌≤◌, ◌≡◌, ◌≢◌, refl, sym, ap, ◌∙◌, String, Option, none, some, List, [], ◌∷◌, map,
  Memᴰ, Memᴰ-cons, inl, inr, arith,
}
use aptos_setup_ceremony.Contributor.{Contributor}
use aptos_setup_ceremony.Crypto.Attempt.{done}
use aptos_setup_ceremony.Stateful.{indices}
use aptos_setup_ceremony.Server.Store.ContributionFiles.{
  Cloud, ContributionFilesStore, ObjectName, parallel_upload_parts, object_name, part_object_name,
  gather, delete_object, finalize_upload, download_contribution,
}
use aptos_setup_ceremony.Server.Store.ContributionFiles.Bucket.{
  Removed, Stored, IsBucket, for_each-Removed, delete_object-Removed,
}
use aptos_setup_ceremony.Server.Store.ContributionFiles.Plan.{parts_of}

-- No element of the list comes again later.
abbrev pub Distinct : {A : Type 0} → List A → Type 0
Distinct [] = Unit {0}
Distinct (x ∷ xs) = (Memᴰ x xs → ⊥) × Distinct xs

indices_from : (i n j : ℕ) → Memᴰ j (indices i n) → i ≤ j
indices_from i zero j m = elim m [ ]
indices_from i (suc n) j m = elim (Memᴰ-cons m) [
  | inl e ↦ omega arith
  | inr t ↦ let le = indices_from (suc i) n j t in omega arith
]

pub indices-Distinct : (i n : ℕ) → Distinct (indices i n)
indices-Distinct i zero = tt
indices-Distinct i (suc n) =
    (λ m. let le = indices_from (suc i) n i m in absurd (omega arith), indices-Distinct (suc i) n)

module _ (G : Cloud) where
  part_injective :
      (c : Contributor) (i j : ℕ) → part_object_name G c i ≡ part_object_name G c j → i ≡ j
  unfolding part_object_name
  part_injective c i j e = cc

  part_apart : (c d : Contributor) (i : ℕ) → part_object_name G c i ≢ object_name G d
  unfolding part_object_name object_name
  part_apart c d i e = cc

  map_parts-Memᴰ :
      (c : Contributor) (i : ℕ) (is : List ℕ)
      → Memᴰ (part_object_name G c i) (map (part_object_name G c) is)
      → Memᴰ i is
  map_parts-Memᴰ c i [] m = elim m [ ]
  map_parts-Memᴰ c i (j ∷ is) m = elim (Memᴰ-cons m) [
    | inl e ↦ Memᴰ.head (part_injective c i j e)
    | inr t ↦ Memᴰ.tail (map_parts-Memᴰ c i is t)
  ]

  pub parts-Distinct :
      (c : Contributor) (is : List ℕ) → Distinct is → Distinct (map (part_object_name G c) is)
  parts-Distinct c [] d = tt
  parts-Distinct c (i ∷ is) (d, ds) = (λ m. d (map_parts-Memᴰ c i is m), parts-Distinct c is ds)

  pub parts_apart :
      (c d : Contributor) (is : List ℕ) (n : ObjectName)
      → Memᴰ n (map (part_object_name G c) is)
      → n ≢ object_name G d
  parts_apart c d [] n m e = elim m [ ]
  parts_apart c d (i ∷ is) n m e = elim (Memᴰ-cons m) [
    | inl p ↦ part_apart c d i (sym p ∙ e)
    | inr t ↦ parts_apart c d is n t e
  ]

module _ (G : Cloud) (objects : G.St → ObjectName → Option (List ℕ)) where
  open G use {St}

  pub Stored-kept :
      (s s' : St) (ns : List ObjectName) (bs : List (List ℕ))
      → ((n : ObjectName) → Memᴰ n ns → objects s' n ≡ objects s n)
      → Stored G objects s ns bs
      → Stored G objects s' ns bs
  Stored-kept s s' [] [] k h = tt
  Stored-kept s s' (n ∷ ns) (b ∷ bs) k (e, h) =
      (k n (Memᴰ.head refl) ∙ e, Stored-kept s s' ns bs (λ m t. k m (Memᴰ.tail t)) h)
  Stored-kept s s' [] (b ∷ bs) k h = absurd h
  Stored-kept s s' (n ∷ ns) [] k h = absurd h

  module _ (store : ContributionFilesStore) (opens : String → ObjectName → Type 0) (c : Contributor)
      (B : IsBucket G objects store opens c) where
    -- Each object of the loop is still there when its turn comes.
    abbrev Left : St → List ℕ → Type 0
    Left s is =
        ((bs : List (List ℕ)) × Stored G objects s (map (part_object_name G c) is) bs)
        × Distinct (map (part_object_name G c) is)

    delete_one :
        (i : ℕ) (is : List ℕ) (s : St)
        → Left s (i ∷ is)
        → (s' : St) × (delete_object G store (part_object_name G c i) s ≡ (done tt, s'))
          × Removed G objects (part_object_name G c i ∷ []) s s'
          × Left s' is
    delete_one i is s (([], h), d) = absurd h
    delete_one i is s ((b ∷ bs, (h, hs)), (d, ds)) =
        let n = part_object_name G c i in
        let (s', e, r) = delete_object-Removed G objects store opens c B n s b h in
        (
          s',
          e,
          r,
          (
            (
              bs,
              Stored-kept s s' (map (part_object_name G c) is) bs
                  (λ k m.
                    r.kept k
                      (λ t. elim (Memᴰ-cons t) [ inl p ↦ d (subst_Memᴰ p m) | inr u ↦ elim u [ ] ]))
                  hs,
            ),
            ds,
          ),
        )
      where
        subst_Memᴰ : {k n : ObjectName} {ns : List ObjectName} → k ≡ n → Memᴰ k ns → Memᴰ n ns
        subst_Memᴰ p m = rw (sym p) m

    -- While the cloud works and all the parts of a contributor are stored, the end of the upload puts
    -- the contributor's object together from the parts, in their order, removes the parts, and changes
    -- no other object.
    pub finalize_upload-Written :
        (bs : List (List ℕ)) (s : St)
        → Stored G objects s (parts_of G c) bs
        → (s' : St) × (finalize_upload G store c s ≡ (done tt, s'))
          × (objects s' (object_name G c) ≡ some (gather G store bs))
          × ((n : ObjectName) → Memᴰ n (parts_of G c) → objects s' n ≡ none)
          × ((n : ObjectName)
              → n ≢ object_name G c
              → (Memᴰ n (parts_of G c) → ⊥)
              → objects s' n ≡ objects s n)
    unfolding finalize_upload
    finalize_upload-Written bs s h =
        let is = indices 0 parallel_upload_parts in
        let (s', e, w) = B.composed (object_name G c) (parts_of G c) bs s h in
        let (s'', e', r) =
          for_each-Removed G objects (part_object_name G c)
            (λ i. delete_object G store (part_object_name G c i)) Left
            (λ i rest t p. delete_one i rest t p) is s'
            (
              (
                bs,
                Stored-kept s s' (parts_of G c) bs (λ n m. w.others n (parts_apart G c c is n m)) h,
              ),
              parts-Distinct G c is (indices-Distinct 0 parallel_upload_parts),
            ) in
        (
          s'',
          rw (e, e') refl,
          r.kept (object_name G c) (λ m. parts_apart G c c is (object_name G c) m refl) ∙ w.stored,
          r.gone,
          λ n d m. r.kept n m ∙ w.others n d,
        )

    -- A stored contribution is read whole.
    pub download_contribution-stored :
        (d : Contributor) (b : List ℕ) (s : St)
        → objects s (object_name G d) ≡ some b
        → download_contribution G store d s ≡ (done b, s)
    unfolding download_contribution
    download_contribution-stored d b s h =
        let (chunks, e, j) = B.read (object_name G d) s b h in rw e (ap (λ x. (done x, s)) j)
