-- ===== src/Server/Queue.antt =====
-- What holds of the table of contributors between two statements, and the changes of one row that
-- keep it: the queue discipline of server/src/store/contributors_db and server/src/handlers.rs.
pub mod Update
pub mod Register
pub mod Joins
pub mod Ticks
pub mod Moves
pub mod Positions
pub mod Verifying
pub mod Effects
pub mod Reads
pub mod Statements
use aptos_setup_ceremony.Base.{
  ℕ, ◌≡◌, refl, sym, ap, ◌∙◌, subst, ◌≢◌, ◌⊎◌, inl, inr, Bool, true, false, Option, none, some,
  List, [], ◌∷◌, ◌++◌, Memᴰ, arith, ◌==◌, ==_iff, ==_refl, Bool-cases, if◌then◌else◌,
}
use aptos_setup_ceremony.Contributor.{Contributor}
use aptos_setup_ceremony.Server.Store.Row.{
  ContributorStatus, didnt_join_queue, queued, kicked, ContributorRow, new, Table, update_where,
}
use aptos_setup_ceremony.Server.Store.Db.{sql_lt, find_key, register}

abbrev pub is_some {ℓ} : {A : Type ℓ} → Option A → Bool
is_some none = false
is_some (some _) = true

-- One row: which columns are set at which status.
pub record IsValid (r : ContributorRow) : Type 0 where
  pub idle : r.status ≡ didnt_join_queue → is_some r.started_download_at ≡ false
  pub placed : r.status ≡ queued → is_some r.joined_at ≡ true
  pub explained : r.status ≡ kicked → is_some r.kicked_error ≡ true
  pub verified : r.status ≡ ContributorStatus.finished → is_some r.finished_verify_at ≡ true
  pub uploaded : r.status ≡ ContributorStatus.finished → is_some r.finished_upload_at ≡ true
  pub only_finished : is_some r.finished_verify_at ≡ true → r.status ≡ ContributorStatus.finished
  pub upload_order : is_some r.finished_upload_at ≡ true → is_some r.started_upload_at ≡ true
  pub compute_order : is_some r.started_upload_at ≡ true → is_some r.started_compute_at ≡ true
  pub download_order : is_some r.started_compute_at ≡ true → is_some r.started_download_at ≡ true

abbrev pub Earlier : ContributorRow → ContributorRow → Type 0
Earlier r s = sql_lt r.joined_at s.joined_at ≡ true

-- Every other queued row joined later.
abbrev pub IsFront : Table → ContributorRow → Type 0
IsFront db r =
    (s : ContributorRow)
    → Memᴰ s db
    → s.status ≡ queued
    → s.verifying_key ≢ r.verifying_key
    → Earlier r s

pub record Inv (db : Table) : Type 0 where
  pub valid : (r : ContributorRow) → Memᴰ r db → IsValid r
  pub unique :
      (r s : ContributorRow) → Memᴰ r db → Memᴰ s db → r.verifying_key ≡ s.verifying_key → r ≡ s
  pub distinct :
      (r s : ContributorRow)
      → Memᴰ r db
      → Memᴰ s db
      → r.status ≡ queued
      → s.status ≡ queued
      → r.verifying_key ≢ s.verifying_key
      → Earlier r s ⊎ Earlier s r
  pub active :
      (r : ContributorRow)
      → Memᴰ r db
      → r.status ≡ queued
      → is_some r.started_download_at ≡ true
      → IsFront db r

-- The clock has passed every joining time of the queue.
abbrev pub IsFresh : ℕ → Table → Type 0
IsFresh now db =
    (r : ContributorRow) → Memᴰ r db → r.status ≡ queued → sql_lt r.joined_at (some now) ≡ true

-- What may become of a row `r` of `db`: it keeps its place, it leaves the queue, or it joins.
pub data Change (db : Table) (r r' : ContributorRow) : Type 0 where
  stay :
      r'.status ≡ r.status
      → r'.joined_at ≡ r.joined_at
      → (r.status ≡ queued → is_some r'.started_download_at ≡ true → IsFront db r)
      → Change db r r'
  leave : r'.status ≢ queued → Change db r r'
  enter :
      (now : ℕ)
      → IsFresh now db
      → r'.joined_at ≡ some now
      → is_some r'.started_download_at ≡ false
      → Change db r r'

abbrev pub update_row : ℕ → (ContributorRow → ContributorRow) → ContributorRow → ContributorRow
update_row key set r = if r.verifying_key == key then set r else r

module _ (key : ℕ) (set : ContributorRow → ContributorRow) where
  pub Memᴰ-update_where :
      (db : Table) {r' : ContributorRow}
      → Memᴰ r' (update_where key set db)
      → (r : ContributorRow) × Memᴰ r db × (r' ≡ update_row key set r)
  unfolding update_where
  Memᴰ-update_where [] m = elim m [ ]
  Memᴰ-update_where (x ∷ xs) (Memᴰ.head e) = (x, Memᴰ.head refl, e)
  Memᴰ-update_where (x ∷ xs) (Memᴰ.tail m) =
      let (r, n, e) = Memᴰ-update_where xs m in (r, Memᴰ.tail n, e)

  pub update_where-Memᴰ :
      (db : Table) {r : ContributorRow}
      → Memᴰ r db
      → Memᴰ (update_row key set r) (update_where key set db)
  unfolding update_where
  update_where-Memᴰ [] m = elim m [ ]
  update_where-Memᴰ (x ∷ xs) (Memᴰ.head e) = Memᴰ.head (ap (update_row key set) e)
  update_where-Memᴰ (x ∷ xs) (Memᴰ.tail m) = Memᴰ.tail (update_where-Memᴰ xs m)
