-- ===== src/Server/Store/ContributionFiles.antt =====
-- The files of the contributions: server/src/store/contribution_files.rs, with
-- `PARALLEL_UPLOAD_PARTS` of common/src/constants.rs. The cloud is a parameter, and a formatted name
-- is the constructor of its format string, applied to what it prints.
pub mod Bucket
pub mod Plan
pub mod Finalize
pub mod RoundTrip
use aptos_setup_ceremony.Base.{
  ℕ, ◌+◌, ◌*◌, ◌/◌, ◌%◌, ◌&&◌, String, Bool, not, List, [], ◌∷◌, ◌++◌, map, ltb, leb, if◌then◌else◌,
}
use aptos_setup_ceremony.Contributor.{Contributor}
use aptos_setup_ceremony.Crypto.Attempt.{done, failed, panicked}
use aptos_setup_ceremony.Server.Error.{
  FilesError, bucket_not_found, already_exists, file_does_not_exist, deletion_failed,
}
use aptos_setup_ceremony.Stateful.{
  Action, ◌>>=◌, ◌>>◌, pure, throw, unwrap, indices, for_each, collect,
}

-- "projects/_/buckets/{}"
pub data BucketName : Type 0 where
  bucket_name : String → BucketName

-- "contributions/{}.bin" with the digits of the key, "{}.part.{i}", and the test download.
pub data ObjectName : Type 0 where
  contribution_bin : List ℕ → ObjectName
  part_of : ObjectName → ℕ → ObjectName
  test_download_blob : ObjectName

-- "{}/storage/v1/b/{}/o/{}", with the last two encoded.
pub data ObjectUrl : Type 0 where
  object_url : String → String → ObjectName → ObjectUrl

pub data Method : Type 0 where
  get put : Method

-- What the store calls of `gcp_auth`, `reqwest` and `google_cloud_storage`. A response is its status
-- and its text, and a read object is its chunks.
pub record Cloud : Type 1 where
  pub St : Type 0
  pub provider : Action FilesError St (Unit {0})
  pub token : Action FilesError St String
  pub http_get : ObjectUrl → String → Action FilesError St (ℕ × String)
  pub http_delete : ObjectUrl → String → Action FilesError St (ℕ × String)
  pub get_bucket : BucketName → Action FilesError St (Unit {0})
  pub create_bucket : String → String → Action FilesError St (Unit {0})
  pub compose_object : BucketName → ObjectName → List ObjectName → Action FilesError St (Unit {0})
  pub read_object : BucketName → ObjectName → Action FilesError St (List (List ℕ))
  pub write_object : BucketName → ObjectName → List ℕ → Action FilesError St (Unit {0})
  pub sign_url : BucketName → ObjectName → Method → ℕ → Action FilesError St String
  pub as_bytes : ℕ → List ℕ

abbrev pub parallel_upload_parts : ℕ
parallel_upload_parts = 8

-- `{:02x}` of each byte, as digits.
unfoldable pub hex_key : List ℕ → List ℕ
hex_key [] = []
hex_key (b ∷ bs) = b / 16 ∷ b % 16 ∷ hex_key bs

-- `resp.status().is_success()`
abbrev pub is_success : ℕ → Bool
is_success status = leb 200 status && ltb status 300

pub record ContributionFilesStore : Type 0 where
  pub bucket_id : String
  pub project_id : String
  pub base_url : String

module _ (G : Cloud) where
  open G use {St}

  unfoldable pub object_name : Contributor → ObjectName
  object_name contributor = contribution_bin (hex_key (G.as_bytes contributor.verifying_key))

  unfoldable pub part_object_name : Contributor → ℕ → ObjectName
  part_object_name contributor i = part_of (object_name contributor) i

  module _ (store : ContributionFilesStore) where
    -- The URL of an object, as `object_exists` and `delete_object` write it.
    abbrev pub url_of : ObjectName → ObjectUrl
    url_of obj_name = object_url store.base_url store.bucket_id obj_name

    unfoldable pub ensure_bucket_exists : Action FilesError St (Unit {0})
    ensure_bucket_exists s =
        let r = G.get_bucket (bucket_name store.bucket_id) s in
        elim r.0 [
          | done _ ↦ (done tt, r.1)
          | panicked ↦ (panicked, r.1)
          | failed e ↦ elim e [
            | bucket_not_found ↦
                let c = G.create_bucket store.bucket_id store.project_id r.1 in
                elim c.0 [
                  | done _ ↦ (done tt, c.1)
                  | panicked ↦ (panicked, c.1)
                  | failed x ↦ elim x [ already_exists ↦ (done tt, c.1) | y ↦ (failed y, c.1) ]
                ]
            | y ↦ (failed y, r.1)
          ]
        ]

    unfoldable pub object_exists : ObjectName → Action FilesError St Bool
    object_exists obj_name = do
      token ← G.token
      resp ← G.http_get (url_of obj_name) token
      pure (is_success resp.0)

    unfoldable pub delete_object : ObjectName → Action FilesError St (Unit {0})
    delete_object obj_name = do
      unwrap G.provider
      token ← unwrap G.token
      resp ← G.http_delete (url_of obj_name) token
      if not (is_success resp.0) then throw (deletion_failed resp.0 resp.1) else pure tt

    unfoldable pub generate_signed_download_url : ObjectName → Action FilesError St String
    generate_signed_download_url obj_name =
        G.sign_url (bucket_name store.bucket_id) obj_name get 3600

    unfoldable pub generate_signed_upload_url : ObjectName → Action FilesError St String
    generate_signed_upload_url obj_name = G.sign_url (bucket_name store.bucket_id) obj_name put 3600

    unfoldable pub get_download_url : Contributor → Action FilesError St String
    unfolding object_name object_exists generate_signed_download_url
    get_download_url c = do
      exists ← object_exists (object_name c)
      if exists
          then generate_signed_download_url (object_name c)
          else throw (file_does_not_exist c.name)

    -- `if self.object_exists(&name).await? { self.delete_object(&name).await?; }`
    unfoldable pub delete_if_exists : ObjectName → Action FilesError St (Unit {0})
    unfolding object_exists delete_object
    delete_if_exists name = do
      exists ← object_exists name
      if exists then delete_object name else pure tt

    unfoldable pub get_upload_plan : Contributor → Action FilesError St (List String)
    unfolding object_name part_object_name delete_if_exists generate_signed_upload_url
    get_upload_plan c = do
      delete_if_exists (object_name c)
      for_each (λ i. delete_if_exists (part_object_name c i)) (indices 0 parallel_upload_parts)
      collect (λ i. generate_signed_upload_url (part_object_name c i))
          (indices 0 parallel_upload_parts)

    unfoldable pub finalize_upload : Contributor → Action FilesError St (Unit {0})
    unfolding object_name part_object_name delete_object
    finalize_upload c = do
      G.compose_object (bucket_name store.bucket_id) (object_name c)
          (map (λ i. part_object_name c i) (indices 0 parallel_upload_parts))
      for_each (λ i. delete_object (part_object_name c i)) (indices 0 parallel_upload_parts)

    -- The loop that gathers the chunks.
    abbrev pub gather : List (List ℕ) → List ℕ
    gather [] = []
    gather (chunk ∷ chunks) = chunk ++ gather chunks

    unfoldable pub download_contribution : Contributor → Action FilesError St (List ℕ)
    unfolding object_name
    download_contribution contributor = do
      chunks ← G.read_object (bucket_name store.bucket_id) (object_name contributor)
      pure (gather chunks)

    unfoldable pub write_test_blob : List ℕ → Action FilesError St (Unit {0})
    write_test_blob blob = G.write_object (bucket_name store.bucket_id) test_download_blob blob

    unfoldable pub get_test_blob_download_url : Action FilesError St String
    unfolding generate_signed_download_url
    get_test_blob_download_url = generate_signed_download_url test_download_blob
