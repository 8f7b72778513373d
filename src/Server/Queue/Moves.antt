-- ===== src/Server/Queue/Moves.antt =====
-- The queue as a state machine: the moves that the table and the running verifications can make,
-- each with the guard under which the server makes it.
pub mod Kept
use aptos_setup_ceremony.Base.{
  ℕ, ◌≡◌, refl, sym, ap, ◌∙◌, ◌⊎◌, true, false, Memᴰ, none, arith, List, [], ◌∷◌, ◌++◌, String,
}
use aptos_setup_ceremony.Contributor.{Contributor}
use aptos_setup_ceremony.Server.Error.{KickedError}
use aptos_setup_ceremony.Server.State.{Task, spawned}
use aptos_setup_ceremony.Server.Store.Row.{
  didnt_join_queue, queued, kicked, ContributorRow, new, Table, update_where,
  get_current_contribution_step, same_variant, download_not_started, download_started,
  compute_started, upload_started, verifying, enqueue, update_timestamp, mark_started_download,
  mark_started_compute, mark_started_upload, mark_finished_upload, mark_finished_verify,
  mark_kicked, set_enqueued, set_timestamp, set_started_download, set_started_compute,
  set_started_upload, set_finished_upload, set_finished_verify, set_kicked,
}
use aptos_setup_ceremony.Server.Store.Db.{find_key}
use aptos_setup_ceremony.Server.Queue.{is_some, IsValid, IsFront, Inv, IsFresh}
use aptos_setup_ceremony.Server.Queue.Update.{IsSound, update_where-Inv}
use aptos_setup_ceremony.Server.Queue.Statements.{
  set_enqueued-IsSound, set_timestamp-IsSound, set_started_download-IsSound,
  set_started_compute-IsSound, set_started_upload-IsSound, set_finished_upload-IsSound,
  set_finished_verify-IsSound, set_kicked-IsSound,
}
use aptos_setup_ceremony.Server.Queue.Register.{register-IsGood}
use aptos_setup_ceremony.Server.Queue.Verifying.{
  task_key, is_verifying, Coupled, free, busy, update_where-Coupled, update_where-busy,
  update_where-free, IsGood, verifying-queued,
}

-- A row of the table that is queued and in front of the queue.
pub record IsHead (db : Table) (r : ContributorRow) : Type 0 where
  pub stored : Memᴰ r db
  pub waits : r.status ≡ queued
  pub front : IsFront db r

pub data Move (db : Table) (ts : List Task) (db' : Table) (ts' : List Task) : Type 0 where
  rest : db' ≡ db → ts' ≡ ts → Move db ts db' ts'
  touch :
      (r : ContributorRow) (now : ℕ)
      → Memᴰ r db
      → db' ≡ update_timestamp now r db
      → ts' ≡ ts
      → Move db ts db' ts'
  register :
      (c : Contributor) (now : ℕ)
      → find_key c.verifying_key db ≡ none
      → db' ≡ db ++ new now c ∷ []
      → ts' ≡ ts
      → Move db ts db' ts'
  join :
      (r : ContributorRow) (now download compute upload : ℕ)
      → Memᴰ r db
      → (r.status ≡ didnt_join_queue) ⊎ (r.status ≡ kicked)
      → IsFresh now db
      → db' ≡ enqueue now r download compute upload db
      → ts' ≡ ts
      → Move db ts db' ts'
  start_download :
      (r : ContributorRow) (now : ℕ)
      → IsHead db r
      → get_current_contribution_step r ≡ download_not_started
      → db' ≡ mark_started_download now r db
      → ts' ≡ ts
      → Move db ts db' ts'
  start_compute :
      (r : ContributorRow) (now : ℕ)
      → IsHead db r
      → same_variant (get_current_contribution_step r) (download_started now) ≡ true
      → db' ≡ mark_started_compute now r db
      → ts' ≡ ts
      → Move db ts db' ts'
  start_upload :
      (r : ContributorRow) (now : ℕ)
      → IsHead db r
      → same_variant (get_current_contribution_step r) (compute_started now) ≡ true
      → db' ≡ mark_started_upload now r db
      → ts' ≡ ts
      → Move db ts db' ts'
  finish_upload :
      (r : ContributorRow) (now : ℕ) (c : Contributor) (hash : String)
      → IsHead db r
      → same_variant (get_current_contribution_step r) (upload_started now) ≡ true
      → r.verifying_key ≡ c.verifying_key
      → db' ≡ mark_finished_upload now r hash db
      → ts' ≡ ts ++ spawned c hash ∷ []
      → Move db ts db' ts'
  kick :
      (r : ContributorRow) (now : ℕ) (error : KickedError)
      → IsHead db r
      → same_variant (get_current_contribution_step r) verifying ≡ false
      → db' ≡ mark_kicked now r error db
      → ts' ≡ ts
      → Move db ts db' ts'
  advance :
      (t t' : Task)
      → ts ≡ t ∷ []
      → task_key t' ≡ task_key t
      → db' ≡ db
      → ts' ≡ t' ∷ []
      → Move db ts db' ts'
  accept :
      (t : Task) (r : ContributorRow) (now : ℕ)
      → ts ≡ t ∷ []
      → r.verifying_key ≡ task_key t
      → Memᴰ r db
      → is_verifying r ≡ true
      → db' ≡ mark_finished_verify now r db
      → ts' ≡ []
      → Move db ts db' ts'
  reject :
      (t : Task) (r : ContributorRow) (now : ℕ) (error : KickedError)
      → ts ≡ t ∷ []
      → r.verifying_key ≡ task_key t
      → Memᴰ r db
      → is_verifying r ≡ true
      → db' ≡ mark_kicked now r error db
      → ts' ≡ []
      → Move db ts db' ts'

-- A run of moves.
pub data Moves (db : Table) (ts : List Task) : Table → List Task → Type 0 where
  one : {db' : Table} {ts' : List Task} → Move db ts db' ts' → Moves db ts db' ts'
  then :
      {db₁ db' : Table} {ts₁ ts' : List Task}
      → Moves db ts db₁ ts₁
      → Move db₁ ts₁ db' ts'
      → Moves db ts db' ts'
