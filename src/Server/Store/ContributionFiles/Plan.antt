-- ===== src/Server/Store/ContributionFiles/Plan.antt =====
-- The upload plan: server/src/store/contribution_files.rs.
use aptos_setup_ceremony.Base.{
  ℕ, zero, suc, ◌+◌, ◌≤◌, arith, ◌≡◌, refl, String, Option, List, [], ◌∷◌, map,
}
use aptos_setup_ceremony.Contributor.{Contributor}
use aptos_setup_ceremony.Crypto.Attempt.{done}
use aptos_setup_ceremony.Stateful.{indices, for_each, collect}
use aptos_setup_ceremony.Server.Store.ContributionFiles.{
  Cloud, ContributionFilesStore, ObjectName, parallel_upload_parts, object_name, part_object_name,
  generate_signed_upload_url, delete_if_exists, get_upload_plan,
}
use aptos_setup_ceremony.Server.Store.ContributionFiles.Bucket.{
  Removed, IsBucket, Removed-then, for_each-Removed, delete_if_exists-Removed,
}

-- The names of the parts, in order.
abbrev pub parts_of : Cloud → Contributor → List ObjectName
parts_of G c = map (λ i. part_object_name G c i) (indices 0 parallel_upload_parts)

-- Each URL opens the object of its place in the list.
abbrev pub AllOpen : (String → ObjectName → Type 0) → List String → List ObjectName → Type 0
AllOpen opens [] [] = Unit {0}
AllOpen opens (u ∷ us) (n ∷ ns) = opens u n × AllOpen opens us ns
AllOpen opens _ _ = ⊥

module _ (G : Cloud) (objects : G.St → ObjectName → Option (List ℕ))
    (store : ContributionFilesStore) (opens : String → ObjectName → Type 0) (c : Contributor)
    (B : IsBucket G objects store opens c) where
  open G use {St}

  collect-AllOpen :
      (i n : ℕ) (s : St)
      → i + n ≤ parallel_upload_parts
      → (us : List String) × (collect
            (λ k. generate_signed_upload_url G store (part_object_name G c k))
            (indices i n)
            s
          ≡ (done us, s))
        × AllOpen opens us (map (part_object_name G c) (indices i n))
  unfolding generate_signed_upload_url
  collect-AllOpen i zero s le = ([], refl, tt)
  collect-AllOpen i (suc n) s le =
      let (u, e, o) = B.signed i s (omega arith) in
      let (us, e', os) = collect-AllOpen (suc i) n s (omega arith) in
      (u ∷ us, rw (e, e') refl, (o, os))

  clear_all :
      (s : St)
      → (s' : St) × (for_each
            (λ i. delete_if_exists G store (part_object_name G c i))
            (indices 0 parallel_upload_parts)
            s
          ≡ (done tt, s'))
        × Removed G objects (parts_of G c) s s'
  clear_all s =
      for_each-Removed G objects (part_object_name G c)
        (λ i. delete_if_exists G store (part_object_name G c i)) (λ s xs. Unit {0})
        (λ i is t p.
          let (t', e, r) =
            delete_if_exists-Removed G objects store opens c B (part_object_name G c i) t in
          (t', e, r, tt))
        (indices 0 parallel_upload_parts) s tt

  -- While the cloud works, an upload plan is one URL for each part, in order, each of which opens the
  -- part of its place. The contributor's object and all the parts are gone, whether they were there or
  -- not, and every other object is as it was.
  pub get_upload_plan-Removed :
      (s : St)
      → (us : List String) × (s' : St) × (get_upload_plan G store c s ≡ (done us, s'))
        × AllOpen opens us (parts_of G c)
        × Removed G objects (object_name G c ∷ parts_of G c) s s'
  unfolding get_upload_plan
  get_upload_plan-Removed s =
      let (s', e, r) = delete_if_exists-Removed G objects store opens c B (object_name G c) s in
      let (s'', e', r') = clear_all s' in
      let (us, e'', o) = collect-AllOpen 0 parallel_upload_parts s'' (omega arith) in
      (
        us,
        s'',
        rw (e, e', e'') refl,
        o,
        Removed-then G objects (object_name G c) (parts_of G c) s s' s'' r r',
      )
