-- ===== src/Server/Store/ContributionFiles/Bucket.antt =====
-- What the files store relies on of the cloud when it works, and one object's test, removal and
-- reading on it: server/src/store/contribution_files.rs.
use aptos_setup_ceremony.Base.{
  ℕ, ◌≡◌, ◌≢◌, ◌<◌, refl, ap, ◌∙◌, inl, inr, String, true, false, Option, none, some, List, [], ◌∷◌,
  map, Memᴰ, Memᴰ-cons, Option-cases,
}
use aptos_setup_ceremony.Contributor.{Contributor}
use aptos_setup_ceremony.Crypto.Attempt.{done}
use aptos_setup_ceremony.Stateful.{Action, for_each}
use aptos_setup_ceremony.Server.Error.{FilesError}
use aptos_setup_ceremony.Server.Store.ContributionFiles.{
  Cloud, ContributionFilesStore, ObjectName, put, bucket_name, url_of, gather, part_object_name,
  parallel_upload_parts, object_exists, delete_object, delete_if_exists,
}

module _ (G : Cloud) (objects : G.St → ObjectName → Option (List ℕ)) where
  open G use {St}

  -- The objects of the names are gone, and nothing else has changed.
  pub record Removed (names : List ObjectName) (s s' : St) : Type 0 where
    pub gone : (n : ObjectName) → Memᴰ n names → objects s' n ≡ none
    pub kept : (n : ObjectName) → (Memᴰ n names → ⊥) → objects s' n ≡ objects s n
    pub absent : (n : ObjectName) → objects s n ≡ none → objects s' n ≡ none

  -- The object has the bytes, and nothing else has changed.
  pub record Written (name : ObjectName) (bytes : List ℕ) (s s' : St) : Type 0 where
    pub stored : objects s' name ≡ some bytes
    pub others : (n : ObjectName) → n ≢ name → objects s' n ≡ objects s n

  -- Each name's object has its bytes.
  abbrev pub Stored : St → List ObjectName → List (List ℕ) → Type 0
  Stored s [] [] = Unit {0}
  Stored s (n ∷ ns) (b ∷ bs) = (objects s n ≡ some b) × Stored s ns bs
  Stored s _ _ = ⊥

  -- The cloud's documented behaviour while it works, over the objects of the bucket. `opens url n`
  -- says that `url` lets its holder write the object `n`, for the parts of a contributor.
  pub record IsBucket (store : ContributionFilesStore) (opens : String → ObjectName → Type 0)
      (c : Contributor) : Type 0 where
    pub provided : (s : St) → G.provider s ≡ (done tt, s)
    pub token_given : (s : St) → (t : String) × (G.token s ≡ (done t, s))
    pub found :
        (n : ObjectName) (t : String) (s : St) (b : List ℕ)
        → objects s n ≡ some b
        → (x : String) × (G.http_get (url_of G store n) t s ≡ (done (200, x), s))
    pub missing :
        (n : ObjectName) (t : String) (s : St)
        → objects s n ≡ none
        → (x : String) × (G.http_get (url_of G store n) t s ≡ (done (404, x), s))
    pub deleted :
        (n : ObjectName) (t : String) (s : St) (b : List ℕ)
        → objects s n ≡ some b
        → (s' : St) × (x : String) × (G.http_delete (url_of G store n) t s ≡ (done (204, x), s'))
          × Removed (n ∷ []) s s'
    pub composed :
        (n : ObjectName) (ns : List ObjectName) (bs : List (List ℕ)) (s : St)
        → Stored s ns bs
        → (s' : St) × (G.compose_object (bucket_name store.bucket_id) n ns s ≡ (done tt, s'))
          × Written n (gather G store bs) s s'
    pub read :
        (n : ObjectName) (s : St) (b : List ℕ)
        → objects s n ≡ some b
        → (chunks : List (List ℕ)) × (G.read_object (bucket_name store.bucket_id) n s
            ≡ (done chunks, s))
          × (gather G store chunks ≡ b)
    pub signed :
        (i : ℕ) (s : St)
        → i < parallel_upload_parts
        → (u : String) × (G.sign_url
              (bucket_name store.bucket_id)
              (part_object_name G c i)
              put
              3600
              s
            ≡ (done u, s))
          × opens u (part_object_name G c i)

  Removed-rest : (s : St) → Removed [] s s
  Removed-rest s = record { gone = λ n m. elim m [ ]; kept = λ n m. refl; absent = λ n e. e }

  -- One removal after another.
  pub Removed-then :
      (n : ObjectName) (ns : List ObjectName) (s s' s'' : St)
      → Removed (n ∷ []) s s'
      → Removed ns s' s''
      → Removed (n ∷ ns) s s''
  Removed-then n ns s s' s'' r q = record {
    gone = λ k m. elim (Memᴰ-cons m) [
      | inl e ↦ q.absent k (r.gone k (Memᴰ.head e))
      | inr t ↦ q.gone k t
    ];
    kept = λ k m.
        q.kept k (λ t. m (Memᴰ.tail t))
        ∙ r.kept k (λ t. elim (Memᴰ-cons t) [ inl e ↦ m (Memᴰ.head e) | inr u ↦ elim u [ ] ]);
    absent = λ k e. q.absent k (r.absent k e);
  }

  -- A loop of removals, where each of them can be made as long as `P` holds.
  pub for_each-Removed :
      {A : Type 0} (f : A → ObjectName) (act : A → Action FilesError St (Unit {0}))
      (P : St → List A → Type 0)
      → ((x : A) (xs : List A) (s : St)
          → P s (x ∷ xs)
          → (s' : St) × (act x s ≡ (done tt, s')) × Removed (f x ∷ []) s s' × P s' xs)
      → (xs : List A) (s : St) → P s xs
      → (s' : St) × (for_each act xs s ≡ (done tt, s')) × Removed (map f xs) s s'
  for_each-Removed f act P each [] s p = (s, refl, Removed-rest s)
  for_each-Removed f act P each (x ∷ xs) s p =
      let (s', e, r, p') = each x xs s p in
      let (s'', e', r') = for_each-Removed f act P each xs s' p' in
      (s'', rw (e, e') refl, Removed-then (f x) (map f xs) s s' s'' r r')

  module _ (store : ContributionFilesStore) (opens : String → ObjectName → Type 0) (c : Contributor)
      (B : IsBucket store opens c) where
    pub object_exists-found :
        (n : ObjectName) (s : St) (b : List ℕ)
        → objects s n ≡ some b
        → object_exists G store n s ≡ (done true, s)
    unfolding object_exists
    object_exists-found n s b h =
        let (t, e) = B.token_given s in let (x, d) = B.found n t s b h in rw (e, d) refl

    pub object_exists-missing :
        (n : ObjectName) (s : St) → objects s n ≡ none → object_exists G store n s ≡ (done false, s)
    unfolding object_exists
    object_exists-missing n s h =
        let (t, e) = B.token_given s in let (x, d) = B.missing n t s h in rw (e, d) refl

    pub delete_object-Removed :
        (n : ObjectName) (s : St) (b : List ℕ)
        → objects s n ≡ some b
        → (s' : St) × (delete_object G store n s ≡ (done tt, s')) × Removed (n ∷ []) s s'
    unfolding delete_object
    delete_object-Removed n s b h =
        let (t, e) = B.token_given s in
        let (s', x, d, r) = B.deleted n t s b h in (s', rw (B.provided s, e, d) refl, r)

    absent-Removed : (n : ObjectName) (s : St) → objects s n ≡ none → Removed (n ∷ []) s s
    absent-Removed n s h = record {
      gone = λ k m. elim (Memᴰ-cons m) [ inl e ↦ ap (objects s) e ∙ h | inr u ↦ elim u [ ] ];
      kept = λ k m. refl;
      absent = λ k e. e;
    }

    -- Whether the object was there or not, it is gone.
    pub delete_if_exists-Removed :
        (n : ObjectName) (s : St)
        → (s' : St) × (delete_if_exists G store n s ≡ (done tt, s')) × Removed (n ∷ []) s s'
    unfolding delete_if_exists
    delete_if_exists-Removed n s = elim (Option-cases (objects s n)) [
      | inl h ↦ (s, rw (object_exists-missing n s h) refl, absent-Removed n s h)
      | inr (b, h) ↦
          let (s', e, r) = delete_object-Removed n s b h in
          (s', rw (object_exists-found n s b h, e) refl, r)
    ]
