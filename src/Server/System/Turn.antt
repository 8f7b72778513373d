-- ===== src/Server/System/Turn.antt =====
-- The turn of a contributor at the head of the queue, from its first status request to the end of the
-- verification: server/src/handlers.rs, as the client of client/src/contribute.rs goes through it.
pub mod Steps
pub mod Finishes
use aptos_setup_ceremony.Base.{
  ℕ, zero, suc, ◌≡◌, ◌≢◌, refl, sym, ap, ◌∙◌, String, true, false, Bool, ◌&&◌, ◌==◌, ==_refl,
  ==_iff, Bool-cases, inl, inr, Option, none, some, Option-cases, List, [], ◌∷◌, ◌++◌, count, keep,
  Memᴰ, arith,
}
use aptos_setup_ceremony.Contributor.{Contributor}
use aptos_setup_ceremony.Crypto.Attempt.{done}
use aptos_setup_ceremony.Server.Authentication.{Wire}
use aptos_setup_ceremony.Server.Config.{Config}
use aptos_setup_ceremony.Server.Error.{ok}
use aptos_setup_ceremony.Server.Responses.{StatusResponse}
use aptos_setup_ceremony.Server.State.{FilesStore, State, Handler, Task, spawned, started, verified}
use aptos_setup_ceremony.Server.Store.Row.{
  ContributorStatus, queued, ContributorRow, Table, CurrentContributionStep, download_not_started,
  download_started, compute_started, upload_started, get_current_contribution_step, update_where,
  set_timestamp, set_started_download, set_started_compute, set_started_upload, set_finished_upload,
  set_finished_verify, update_timestamp, mark_started_download, mark_started_compute,
  mark_started_upload, mark_finished_upload, mark_finished_verify,
}
use aptos_setup_ceremony.Server.Store.Db.{
  is_queued, is_finished, sql_lt, find_key, pos_of, get_with_pos,
  get_most_recent_finished_contributor,
}
use aptos_setup_ceremony.Server.Handlers.{
  previous_url, check_correct_state, handle_get_status, handle_update_download_progress,
  handle_update_compute_progress, handle_update_upload_progress,
}
use aptos_setup_ceremony.Server.Queue.{update_row, Memᴰ-update_where}
use aptos_setup_ceremony.Server.Queue.Reads.{find_key-some}

-- A change of a row that keeps its key and its place.
pub record IsQuiet (set : ContributorRow → ContributorRow) : Type 0 where
  pub key : (r : ContributorRow) → (set r).verifying_key ≡ r.verifying_key
  pub status : (r : ContributorRow) → (set r).status ≡ r.status
  pub joined : (r : ContributorRow) → (set r).joined_at ≡ r.joined_at

-- The row of a contributor who is at the head of the queue.
pub record AtHead (db : Table) (c : Contributor) (r : ContributorRow) : Type 0 where
  pub found : find_key c.verifying_key db ≡ some r
  pub waits : r.status ≡ queued
  pub first : pos_of db r ≡ 0
  pub unfinished :
      (x : ContributorRow) → Memᴰ x db → x.verifying_key ≡ c.verifying_key → is_finished x ≡ false

pub find_key-update_where :
    (key : ℕ) (set : ContributorRow → ContributorRow) (db : Table) {r : ContributorRow}
    → ((x : ContributorRow) → (set x).verifying_key ≡ x.verifying_key)
    → find_key key db ≡ some r
    → find_key key (update_where key set db) ≡ some (set r)
unfolding find_key update_where
find_key-update_where key set [] q e = absurd (cc)
find_key-update_where key set (x ∷ xs) {r} q e = elim (Bool-cases (x.verifying_key == key)) [
  | inl h ↦
      let k : ((set x).verifying_key == key) ≡ true = ap (λ n. n == key) (q x) ∙ h in
      ground (arith, h, k, e)
  | inr h ↦ let ih = find_key-update_where key set xs {r = r} q in ground (arith, h, e, ih)
]

-- How many queued rows joined before a time.
abbrev before : Option ℕ → Table → ℕ
before j db = count (λ x. is_queued x && sql_lt x.joined_at j) db

pos_of-queued :
    (db : Table) (r : ContributorRow) → r.status ≡ queued → pos_of db r ≡ before r.joined_at db
unfolding pos_of
pos_of-queued db r w = rw (pos_of, w) refl

-- Whose joining time is before a time is not changed.
count-update_where :
    (key : ℕ) (set : ContributorRow → ContributorRow) (j : Option ℕ) (db : Table)
    → IsQuiet set
    → before j (update_where key set db) ≡ before j db
unfolding update_where
count-update_where key set j [] q = refl
count-update_where key set j (x ∷ xs) q =
    let ih = count-update_where key set j xs q in
    let a = q.status x in
    let b = q.joined x in
    elim (Bool-cases (x.verifying_key == key)) [
      | inl h ↦ rw (h, a, b, ih) refl
      | inr h ↦ rw (h, ih) refl
    ]

update_row-key :
    (set : ContributorRow → ContributorRow) (key : ℕ)
    → IsQuiet set
    → (x : ContributorRow) → (update_row key set x).verifying_key ≡ x.verifying_key
update_row-key set key q x = elim (Bool-cases (x.verifying_key == key)) [
  | inl h ↦ rw h (q.key x)
  | inr h ↦ rw h refl
]

update_row-finished :
    (set : ContributorRow → ContributorRow) (key : ℕ)
    → IsQuiet set
    → (x : ContributorRow) → is_finished (update_row key set x) ≡ is_finished x
update_row-finished set key q x = elim (Bool-cases (x.verifying_key == key)) [
  | inl h ↦ let e = q.status x in rw (h, e) refl
  | inr h ↦ rw h refl
]

keep-finished :
    (set : ContributorRow → ContributorRow) (key : ℕ) (db : Table)
    → IsQuiet set
    → ((x : ContributorRow) → Memᴰ x db → x.verifying_key ≡ key → is_finished x ≡ false)
    → keep is_finished (update_where key set db) ≡ keep is_finished db
unfolding update_where
keep-finished set key [] q u = refl
keep-finished set key (x ∷ xs) q u =
    let ih = keep-finished set key xs q (λ y m. u y (Memᴰ.tail m)) in
    elim (Bool-cases (x.verifying_key == key)) [
      | inl h ↦
          let f = u x (Memᴰ.head refl) ((==_iff x.verifying_key key).0 h) in
          let g : is_finished (set x) ≡ false = rw (q.status x) f in rw (h, f, g) ih
      | inr h ↦ rw (h, ih) refl
    ]

pub AtHead-update_where :
    (set : ContributorRow → ContributorRow) (db : Table) (c : Contributor) (r r₀ : ContributorRow)
    → IsQuiet set
    → r₀.verifying_key ≡ c.verifying_key
    → AtHead db c r
    → AtHead (update_where r₀.verifying_key set db) c (set r)
AtHead-update_where set db c r r₀ q k h = record {
  found =
      ap (λ n. find_key c.verifying_key (update_where n set db)) k
      ∙ find_key-update_where c.verifying_key set db q.key h.found;
  waits = q.status r ∙ h.waits;
  first =
      pos_of-queued (update_where r₀.verifying_key set db) (set r) (q.status r ∙ h.waits)
      ∙ ap (λ j. before j (update_where r₀.verifying_key set db)) (q.joined r)
      ∙ count-update_where r₀.verifying_key set r.joined_at db q
      ∙ sym (pos_of-queued db r h.waits)
      ∙ h.first;
  unfinished = λ x m e.
      let (y, n, f) = Memᴰ-update_where r₀.verifying_key set db m in
      let same_key : y.verifying_key ≡ x.verifying_key =
        sym (ap (λ z. z.verifying_key) f ∙ update_row-key set r₀.verifying_key q y) in
      ap is_finished f
      ∙ update_row-finished set r₀.verifying_key q y
      ∙ h.unfinished y n (same_key ∙ e);
}

-- Where no row of the contributor is finished, a quiet change of them leaves the latest finished one.
pub latest-update_where :
    (set : ContributorRow → ContributorRow) (db : Table) (c : Contributor) (r r₀ : ContributorRow)
    → IsQuiet set
    → r₀.verifying_key ≡ c.verifying_key
    → AtHead db c r
    → get_most_recent_finished_contributor (update_where r₀.verifying_key set db)
      ≡ get_most_recent_finished_contributor db
unfolding get_most_recent_finished_contributor
latest-update_where set db c r r₀ q k h =
    rw
      (
        get_most_recent_finished_contributor,
        keep-finished set r₀.verifying_key db q λ x m e. h.unfinished x m (e ∙ k),
      )
      refl

pub touch-IsQuiet : (now : ℕ) → IsQuiet (set_timestamp now)
unfolding set_timestamp
touch-IsQuiet now = record { key = λ r. refl; status = λ r. refl; joined = λ r. refl }

pub download-IsQuiet : (now : ℕ) → IsQuiet (set_started_download now)
unfolding set_started_download
download-IsQuiet now = record { key = λ r. refl; status = λ r. refl; joined = λ r. refl }

pub compute-IsQuiet : (now : ℕ) → IsQuiet (set_started_compute now)
unfolding set_started_compute
compute-IsQuiet now = record { key = λ r. refl; status = λ r. refl; joined = λ r. refl }

pub upload-IsQuiet : (now : ℕ) → IsQuiet (set_started_upload now)
unfolding set_started_upload
upload-IsQuiet now = record { key = λ r. refl; status = λ r. refl; joined = λ r. refl }

pub upload_end-IsQuiet : (now : ℕ) (hash : String) → IsQuiet (set_finished_upload now hash)
unfolding set_finished_upload
upload_end-IsQuiet now hash = record { key = λ r. refl; status = λ r. refl; joined = λ r. refl }

-- What the files store does for one contributor's turn, stage by stage, and what the client's upload
-- makes of it between the plan and the end: before the turn, with a plan, uploaded, and ended.
pub record Serves (F : FilesStore) (c : Contributor) (hash : String) (previous : Option Contributor)
    : Type 1 where
  pub Before : F.St → Type 0
  pub Planned : List String → F.St → Type 0
  pub Uploaded : F.St → Type 0
  pub Ended : F.St → Type 0
  pub upload : List String → F.St → F.St
  pub url :
      (p : Contributor) (t : F.St)
      → previous ≡ some p
      → Before t
      → (u : String) × (t' : F.St) × (F.get_download_url p t ≡ (ok u, t')) × Before t'
  pub plan :
      (t : F.St)
      → Before t
      → (v : String) × (us : List String) × (t' : F.St) × (F.get_upload_plan c t
          ≡ (ok (v ∷ us), t'))
        × Planned (v ∷ us) t'
  pub sent : (us : List String) (t : F.St) → Planned us t → Uploaded (upload us t)
  pub finalize :
      (t : F.St) → Uploaded t → (t' : F.St) × (F.finalize_upload c t ≡ (ok tt, t')) × Ended t'
  pub verification : (t : F.St) → Ended t → (F.verification_job c hash previous t).0 ≡ done tt
