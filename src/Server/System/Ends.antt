-- ===== src/Server/System/Ends.antt =====
-- How a verification ends, and that nothing else panics: server/src/handlers.rs.
use aptos_setup_ceremony.Base.{ℕ, ◌≡◌, true, none, some, arith, [], ◌∷◌, Option}
use aptos_setup_ceremony.Contributor.{Contributor}
use aptos_setup_ceremony.Server.Error.{verification_failed, VerificationError, ok}
use aptos_setup_ceremony.Server.Authentication.{Wire}
use aptos_setup_ceremony.Server.Config.{Config}
use aptos_setup_ceremony.Server.State.{FilesStore, State, verified}
use aptos_setup_ceremony.Server.Store.Row.{ContributorRow, Table, mark_finished_verify, mark_kicked}
use aptos_setup_ceremony.Server.Store.Db.{get_current, finish_current, kick_current}
use aptos_setup_ceremony.Server.Tasks.{run_task}
use aptos_setup_ceremony.Server.Queue.Verifying.{IsGood, is_verifying}
use aptos_setup_ceremony.Server.System.{resume, step}
use aptos_setup_ceremony.Server.System.Running.{verifying-current}

module _ (F : FilesStore) (W : Wire) (config : Config) where
  -- The row that the end of a verification writes: finished where the contribution passed, and
  -- kicked with the error where it did not.
  abbrev pub verdict : ℕ → ContributorRow → Option VerificationError → Table → Table
  verdict now r none db = mark_finished_verify now r db
  verdict now r (some e) db = mark_kicked now r (verification_failed e) db

  -- In every state with the invariant the end of a verification does not panic, and writes the row
  -- of the very contributor whose upload was verified, who is the current one and is being verified:
  -- it is finished where the contribution passed and kicked where it did not. No task is left.
  pub verified-verdict :
      (s : State F.St) (g : IsGood s.contributors_db s.tasks) (now : ℕ) (c : Contributor)
      (result : Option VerificationError)
      → s.tasks ≡ verified c result ∷ []
      → (r : ContributorRow) × (get_current s.contributors_db ≡ some r)
        × (r.verifying_key ≡ c.verifying_key)
        × (is_verifying r ≡ true)
        × (step F W config (resume 0 now) s ≡ (
          ok tt,
          record s { contributors_db = verdict now r result s.contributors_db; tasks = [] },
        ))
  unfolding step run_task finish_current kick_current
  verified-verdict s g now c none e =
      let (r, cur, m, h, k) = verifying-current F W config s g (verified c none) e in
      (r, cur, k, h, ground arith)
  verified-verdict s g now c (some x) e =
      let (r, cur, m, h, k) = verifying-current F W config s g (verified c (some x)) e in
      (r, cur, k, h, ground arith)
