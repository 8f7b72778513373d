-- ===== src/Server/Store/Row.antt =====
-- One row of the table `contributors`: server/src/store/contributors_db/types.rs.
-- Times are numbers of nanoseconds; a NULL is `none`.
use aptos_setup_ceremony.Base.{
  ℕ, ◌%◌, ◌^◌, String, Bool, true, false, Option, none, some, List, [], ◌∷◌, ◌==◌, if◌then◌else◌,
}
use aptos_setup_ceremony.Contributor.{Contributor}
use aptos_setup_ceremony.Server.Error.{KickedError}

pub data ContributorStatus : Type 0 where
  didnt_join_queue queued kicked finished : ContributorStatus

pub data CurrentContributionStep : Type 0 where
  download_not_started : CurrentContributionStep
  download_started : ℕ → CurrentContributionStep
  compute_started : ℕ → CurrentContributionStep
  upload_started : ℕ → CurrentContributionStep
  verifying : CurrentContributionStep
  finished : CurrentContributionStep

unfoldable pub variant_name : CurrentContributionStep → String
variant_name download_not_started = "download not started"
variant_name (download_started start) = "download started"
variant_name (compute_started start) = "compute started"
variant_name (upload_started start) = "upload started"
variant_name verifying = "verification started"
variant_name CurrentContributionStep.finished = "finished contributing"

-- `std::mem::discriminant(a) == std::mem::discriminant(b)`.
abbrev pub same_variant : CurrentContributionStep → CurrentContributionStep → Bool
same_variant download_not_started download_not_started = true
same_variant (download_started _) (download_started _) = true
same_variant (compute_started _) (compute_started _) = true
same_variant (upload_started _) (upload_started _) = true
same_variant verifying verifying = true
same_variant CurrentContributionStep.finished CurrentContributionStep.finished = true
same_variant _ _ = false

pub record ContributorRow : Type 0 where
  pub updated_timestamp : ℕ
  pub verifying_key : ℕ
  pub name : String
  pub email : String
  pub status : ContributorStatus
  pub test_download_secs : Option ℕ
  pub test_compute_secs : Option ℕ
  pub test_upload_secs : Option ℕ
  pub joined_at : Option ℕ
  pub kicked_at : Option ℕ
  pub kicked_error : Option KickedError
  pub started_download_at : Option ℕ
  pub started_compute_at : Option ℕ
  pub started_upload_at : Option ℕ
  pub finished_upload_at : Option ℕ
  pub contribution_hash : Option String
  pub finished_verify_at : Option ℕ

unfoldable pub contributor : ContributorRow → Contributor
contributor r = record { name = r.name; email = r.email; verifying_key = r.verifying_key }

-- `ContributorRow::new`, at the time `now`.
unfoldable pub new : ℕ → Contributor → ContributorRow
new now c = record {
  updated_timestamp = now;
  verifying_key = c.verifying_key;
  name = c.name;
  email = c.email;
  status = didnt_join_queue;
  test_download_secs = none;
  test_compute_secs = none;
  test_upload_secs = none;
  joined_at = none;
  kicked_at = none;
  kicked_error = none;
  started_download_at = none;
  started_compute_at = none;
  started_upload_at = none;
  finished_upload_at = none;
  contribution_hash = none;
  finished_verify_at = none;
}

unfoldable pub get_current_contribution_step : ContributorRow → CurrentContributionStep
get_current_contribution_step r = elim r.finished_verify_at [
  | some _ ↦ CurrentContributionStep.finished
  | none ↦ elim r.finished_upload_at [
    | some _ ↦ verifying
    | none ↦ elim r.started_upload_at [
      | some start ↦ upload_started start
      | none ↦ elim r.started_compute_at [
        | some start ↦ compute_started start
        | none ↦ elim r.started_download_at [
          | some start ↦ download_started start
          | none ↦ download_not_started
        ]
      ]
    ]
  ]
]

-- `e as u32`
abbrev pub as_u32 : ℕ → ℕ
as_u32 n = n % 2 ^ 32

-- The SET clauses of the UPDATE statements, at the time `now`.
unfoldable pub set_enqueued : ℕ → ℕ → ℕ → ℕ → ContributorRow → ContributorRow
set_enqueued now download_secs compute_secs upload_secs r = record r {
  status = queued;
  joined_at = some now;
  updated_timestamp = now;
  test_download_secs = some (as_u32 download_secs);
  test_compute_secs = some (as_u32 compute_secs);
  test_upload_secs = some (as_u32 upload_secs);
  kicked_at = none;
  kicked_error = none;
  started_download_at = none;
  started_compute_at = none;
  started_upload_at = none;
  finished_upload_at = none;
  contribution_hash = none;
}

unfoldable pub set_timestamp : ℕ → ContributorRow → ContributorRow
set_timestamp now r = record r { updated_timestamp = now }

unfoldable pub set_started_download : ℕ → ContributorRow → ContributorRow
set_started_download now r = record r { started_download_at = some now; updated_timestamp = now }

unfoldable pub set_started_compute : ℕ → ContributorRow → ContributorRow
set_started_compute now r = record r { started_compute_at = some now; updated_timestamp = now }

unfoldable pub set_started_upload : ℕ → ContributorRow → ContributorRow
set_started_upload now r = record r { started_upload_at = some now; updated_timestamp = now }

unfoldable pub set_finished_upload : ℕ → String → ContributorRow → ContributorRow
set_finished_upload now hash r = record r {
  finished_upload_at = some now;
  updated_timestamp = now;
  contribution_hash = some hash;
}

unfoldable pub set_finished_verify : ℕ → ContributorRow → ContributorRow
set_finished_verify now r = record r {
  status = ContributorStatus.finished;
  finished_verify_at = some now;
  updated_timestamp = now;
}

unfoldable pub set_kicked : ℕ → KickedError → ContributorRow → ContributorRow
set_kicked now error r = record r {
  status = kicked;
  kicked_at = some now;
  updated_timestamp = now;
  kicked_error = some error;
}

abbrev pub Table : Type 0
Table = List ContributorRow

-- UPDATE contributors SET `set` WHERE verifying_key = `key`
unfoldable pub update_where : ℕ → (ContributorRow → ContributorRow) → Table → Table
update_where key set [] = []
update_where key set (r ∷ rs) =
    (if r.verifying_key == key then set r else r) ∷ update_where key set rs

-- The methods of a row that has been read, which write by its key.
unfoldable pub enqueue : ℕ → ContributorRow → ℕ → ℕ → ℕ → Table → Table
enqueue now r download_secs compute_secs upload_secs =
    update_where r.verifying_key (set_enqueued now download_secs compute_secs upload_secs)

unfoldable pub update_timestamp : ℕ → ContributorRow → Table → Table
update_timestamp now r = update_where r.verifying_key (set_timestamp now)

unfoldable pub mark_started_download : ℕ → ContributorRow → Table → Table
mark_started_download now r = update_where r.verifying_key (set_started_download now)

unfoldable pub mark_started_compute : ℕ → ContributorRow → Table → Table
mark_started_compute now r = update_where r.verifying_key (set_started_compute now)

unfoldable pub mark_started_upload : ℕ → ContributorRow → Table → Table
mark_started_upload now r = update_where r.verifying_key (set_started_upload now)

unfoldable pub mark_finished_upload : ℕ → ContributorRow → String → Table → Table
mark_finished_upload now r hash = update_where r.verifying_key (set_finished_upload now hash)

unfoldable pub mark_finished_verify : ℕ → ContributorRow → Table → Table
mark_finished_verify now r = update_where r.verifying_key (set_finished_verify now)

unfoldable pub mark_kicked : ℕ → ContributorRow → KickedError → Table → Table
mark_kicked now r error = update_where r.verifying_key (set_kicked now error)
