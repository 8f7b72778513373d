-- ===== src/Server/State.antt =====
-- The state that the handlers of server/src/handlers.rs share, and the monad that they run in.
-- A handler holds the lock of the database from its first query to its end, so it is one function
-- from states to states; what it wrote before an error stays written.
use aptos_setup_ceremony.Base.{String, Option, List, [], ◌∷◌, ◌++◌}
use aptos_setup_ceremony.Contributor.{Contributor}
use aptos_setup_ceremony.Crypto.Attempt.{Attempt}
use aptos_setup_ceremony.Server.Error.{VerificationError, Outcome, ok, err, panic}
use aptos_setup_ceremony.Server.Store.Row.{Table}

-- What the handlers call of `ContributionFilesStore`, and of the verification job over it.
pub record FilesStore : Type 1 where
  pub St : Type 0
  pub get_download_url : Contributor → St → Outcome String × St
  pub get_upload_plan : Contributor → St → Outcome (List String) × St
  pub finalize_upload : Contributor → St → Outcome (Unit {0}) × St
  pub get_test_blob_download_url : St → Outcome String × St
  pub verification_job :
      Contributor → String → Option Contributor → St → Attempt VerificationError (Unit {0}) × St

-- A spawned verification: not yet run, past its first lock with the previous contributor read, and
-- with the job's result (`none` where the contribution passed).
pub data Task : Type 0 where
  spawned : Contributor → String → Task
  started : Contributor → String → Option Contributor → Task
  verified : Contributor → Option VerificationError → Task

pub record State (S : Type 0) : Type 0 where
  pub contributors_db : Table
  pub contribution_files_store : S
  pub tasks : List Task

abbrev pub Handler : Type 0 → Type 0 → Type 0
Handler S A = State S → Outcome A × State S

infixl 5 ◌>>=◌ ◌>>◌
abbrev pub ◌>>=◌ : {S A B : Type 0} → Handler S A → (A → Handler S B) → Handler S B
◌>>=◌ m f s = elim (m s).0 [
  | ok a ↦ f a (m s).1
  | err e ↦ (err e, (m s).1)
  | panic ↦ (panic, (m s).1)
]

abbrev pub ◌>>◌ : {S B : Type 0} → Handler S (Unit {0}) → Handler S B → Handler S B
m >> k = m >>= λ _. k

-- A result that leaves the state alone: a value, an early `return Err`, a computed result.
abbrev pub lift : {S A : Type 0} → Outcome A → Handler S A
lift r s = (r, s)

-- A query, and a query that may fail.
abbrev pub query : {S A : Type 0} → (Table → A) → Handler S A
query q s = (ok (q s.contributors_db), s)

abbrev pub try_query : {S A : Type 0} → (Table → Outcome A) → Handler S A
try_query q s = (q s.contributors_db, s)

-- A statement that writes, and one that may fail.
abbrev pub execute : {S : Type 0} → (Table → Table) → Handler S (Unit {0})
execute u s = (ok tt, record s { contributors_db = u s.contributors_db })

abbrev pub try_execute : {S : Type 0} → (Table → Outcome Table) → Handler S (Unit {0})
try_execute u s = elim (u s.contributors_db) [
  | ok db ↦ (ok tt, record s { contributors_db = db })
  | err e ↦ (err e, s)
  | panic ↦ (panic, s)
]

-- A call of the files store.
abbrev pub on_files : {S A : Type 0} → (S → Outcome A × S) → Handler S A
on_files f s =
    let r = f s.contribution_files_store in (r.0, record s { contribution_files_store = r.1 })

-- `tokio::spawn` of a verification.
abbrev pub spawn : {S : Type 0} → Contributor → String → Handler S (Unit {0})
spawn c hash s = (ok tt, record s { tasks = s.tasks ++ spawned c hash ∷ [] })
