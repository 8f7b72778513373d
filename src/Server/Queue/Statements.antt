-- ===== src/Server/Queue/Statements.antt =====
-- Each statement of server/src/store/contributors_db/types.rs, on a row where its guard holds,
-- makes a sound change.
use aptos_setup_ceremony.Base.{ℕ, ◌≡◌, refl, ◌⊎◌, true, Memᴰ, String, arith}
use aptos_setup_ceremony.Server.Error.{KickedError}
use aptos_setup_ceremony.Server.Store.Row.{
  didnt_join_queue, queued, kicked, ContributorRow, Table, set_enqueued, set_timestamp,
  set_started_download, set_started_compute, set_started_upload, set_finished_upload,
  set_finished_verify, set_kicked,
}
use aptos_setup_ceremony.Server.Queue.{is_some, IsFront, Inv, IsFresh, stay, leave, enter}
use aptos_setup_ceremony.Server.Queue.Update.{IsSound}

module _ (db : Table) (v : Inv db) (r : ContributorRow) (m : Memᴰ r db) (now : ℕ) where
  pub set_timestamp-IsSound : IsSound db (set_timestamp now) r
  unfolding set_timestamp
  set_timestamp-IsSound = record {
    key_kept = refl;
    still_valid = let w = v.valid r m in ground arith;
    change = stay refl refl (v.active r m);
  }

  pub set_started_download-IsSound :
      r.status ≡ queued → IsFront db r → IsSound db (set_started_download now) r
  unfolding set_started_download
  set_started_download-IsSound q front = record {
    key_kept = refl;
    still_valid = let w = v.valid r m in ground arith;
    change = stay refl refl (λ _ _. front);
  }

  pub set_started_compute-IsSound :
      is_some r.started_download_at ≡ true → IsSound db (set_started_compute now) r
  unfolding set_started_compute
  set_started_compute-IsSound a = record {
    key_kept = refl;
    still_valid = let w = v.valid r m in ground arith;
    change = stay refl refl (v.active r m);
  }

  pub set_started_upload-IsSound :
      is_some r.started_compute_at ≡ true → IsSound db (set_started_upload now) r
  unfolding set_started_upload
  set_started_upload-IsSound a = record {
    key_kept = refl;
    still_valid = let w = v.valid r m in ground arith;
    change = stay refl refl (v.active r m);
  }

  pub set_finished_upload-IsSound :
      (hash : String)
      → is_some r.started_upload_at ≡ true
      → IsSound db (set_finished_upload now hash) r
  unfolding set_finished_upload
  set_finished_upload-IsSound hash a = record {
    key_kept = refl;
    still_valid = let w = v.valid r m in ground arith;
    change = stay refl refl (v.active r m);
  }

  pub set_finished_verify-IsSound :
      is_some r.finished_upload_at ≡ true → IsSound db (set_finished_verify now) r
  unfolding set_finished_verify
  set_finished_verify-IsSound a = record {
    key_kept = refl;
    still_valid = let w = v.valid r m in ground arith;
    change = leave (λ e. cc);
  }

  pub set_kicked-IsSound :
      (error : KickedError) → r.status ≡ queued → IsSound db (set_kicked now error) r
  unfolding set_kicked
  set_kicked-IsSound error q = record {
    key_kept = refl;
    still_valid = let w = v.valid r m in ground arith;
    change = leave (λ e. cc);
  }

  pub set_enqueued-IsSound :
      (download compute upload : ℕ)
      → (r.status ≡ didnt_join_queue) ⊎ (r.status ≡ kicked)
      → IsFresh now db
      → IsSound db (set_enqueued now download compute upload) r
  unfolding set_enqueued
  set_enqueued-IsSound download compute upload out fresh = record {
    key_kept = refl;
    still_valid = let w = v.valid r m in ground arith;
    change = enter now fresh refl refl;
  }
