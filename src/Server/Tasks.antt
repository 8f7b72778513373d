-- ===== src/Server/Tasks.antt =====
-- The verification that `handle_update_upload_progress` spawns (with `run_verify`), cut at the
-- points where it lets the lock go: server/src/handlers.rs.
use aptos_setup_ceremony.Base.{ℕ, Option, none, some}
use aptos_setup_ceremony.Crypto.Attempt.{done, failed, panicked}
use aptos_setup_ceremony.Server.Error.{verification_failed, Outcome, ok, err, panic}
use aptos_setup_ceremony.Server.State.{
  FilesStore, Task, spawned, started, verified, State, Handler, try_execute,
}
use aptos_setup_ceremony.Server.Store.Db.{
  get_most_recent_finished_contributor, finish_current, kick_current,
}

-- `.expect("This must succeed; ...")`
abbrev pub expect_ok : {S : Type 0} → Handler S (Unit {0}) → Handler S (Unit {0})
expect_ok m s = elim (m s).0 [
  | ok u ↦ (ok u, (m s).1)
  | err e ↦ (panic, (m s).1)
  | panic ↦ (panic, (m s).1)
]

module _ (F : FilesStore) where
  open F use {St, verification_job}

  -- One stretch of a task: the new task, if it is not at its end, and the state.
  unfoldable pub run_task : ℕ → Task → State St → Outcome (Option Task) × State St
  run_task now (spawned c hash) s =
      (ok (some (started c hash (get_most_recent_finished_contributor s.contributors_db))), s)
  run_task now (started c hash maybe_previous) s =
      let r = verification_job c hash maybe_previous s.contribution_files_store in
      (
        elim r.0 [
          | done _ ↦ ok (some (verified c none))
          | failed e ↦ ok (some (verified c (some e)))
          | panicked ↦ panic
        ],
        record s { contribution_files_store = r.1 },
      )
  run_task now (verified c none) s =
      let r = expect_ok (try_execute (finish_current now)) s in
      (elim r.0 [ ok u ↦ ok none | err e ↦ err e | panic ↦ panic ], r.1)
  run_task now (verified c (some e)) s =
      let r = expect_ok (try_execute (kick_current now (verification_failed e))) s in
      (elim r.0 [ ok u ↦ ok none | err e ↦ err e | panic ↦ panic ], r.1)
