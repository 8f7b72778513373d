-- ===== src/Server/System/Running.antt =====
-- A spawned verification works on the current contributor, and ends without a panic.
use aptos_setup_ceremony.Base.{
  ℕ, String, Option, ◌≢◌, ◌≡◌, refl, ap, ◌∙◌, ◌⊎◌, inl, inr, true, none, some, arith, [], ◌∷◌, Memᴰ,
  Option-cases,
}
use aptos_setup_ceremony.Contributor.{Contributor}
use aptos_setup_ceremony.Crypto.Attempt.{panicked, Attempt-cases}
use aptos_setup_ceremony.Server.Error.{verification_failed, ok}
use aptos_setup_ceremony.Server.Authentication.{Wire}
use aptos_setup_ceremony.Server.Config.{Config}
use aptos_setup_ceremony.Server.State.{FilesStore, State, Task, spawned, started, verified}
use aptos_setup_ceremony.Server.Store.Row.{ContributorRow}
use aptos_setup_ceremony.Server.Store.Db.{
  get_most_recent_finished_contributor, get_current, finish_current, kick_current,
}
use aptos_setup_ceremony.Server.Tasks.{run_task}
use aptos_setup_ceremony.Server.Queue.Reads.{get_current-some, get_current-none}
use aptos_setup_ceremony.Server.Queue.Verifying.{
  IsGood, Coupled, free, busy, is_verifying, task_key, verifying-queued, verifying-IsFront,
  front_unique,
}
use aptos_setup_ceremony.Server.Queue.Moves
use aptos_setup_ceremony.Server.Queue.Moves.{IsHead, Move, Moves, one}
use aptos_setup_ceremony.Server.System.{resume, step}
use aptos_setup_ceremony.Server.System.Refines.{Leads}

module _ (F : FilesStore) (W : Wire) (config : Config) (s : State F.St)
    (g : IsGood s.contributors_db s.tasks) where
  -- The contributor whose task runs is the current one.
  pub verifying-current :
      (t : Task)
      → s.tasks ≡ t ∷ []
      → (r : ContributorRow) × (get_current s.contributors_db ≡ some r)
        × Memᴰ r s.contributors_db
        × (is_verifying r ≡ true)
        × (r.verifying_key ≡ task_key t)
  verifying-current t e = go g.coupled (Option-cases (get_current s.contributors_db))
    where
      go :
          Coupled s.contributors_db s.tasks
          → (get_current s.contributors_db ≡ none)
            ⊎ ((r : ContributorRow) × (get_current s.contributors_db ≡ some r))
          → (r : ContributorRow) × (get_current s.contributors_db ≡ some r)
            × Memᴰ r s.contributors_db
            × (is_verifying r ≡ true)
            × (r.verifying_key ≡ task_key t)
      go (free e0 none_is) c = absurd (cc)
      go (busy t0 r0 e0 m0 h0 k0) (inl none_now) =
          absurd (get_current-none s.contributors_db r0 none_now m0 (verifying-queued r0 h0))
      go (busy t0 r0 e0 m0 h0 k0) (inr (r, c)) =
          let (m, q, front) = get_current-some s.contributors_db g.table c in
          let same =
            front_unique s.contributors_db g.table r r0 m m0 q (verifying-queued r0 h0) front
              (verifying-IsFront s.contributors_db g.table r0 m0 h0) in
          (
            r,
            c,
            m,
            ap is_verifying same ∙ h0,
            ap (λ (x : ContributorRow). x.verifying_key) same
                ∙ k0
                ∙ ap task_key {x = t0} {y = t} (cc),
          )

  -- A task that goes on makes one move, and does not panic where the verification does not.
  pub task-Moves :
      (now : ℕ) (t : Task)
      → s.tasks ≡ t ∷ []
      → Leads s (step F W config (resume 0 now) s).1
        × (((c : Contributor) (hash : String) (p : Option Contributor) (st : F.St)
              → (F.verification_job c hash p st).0 ≢ panicked)
            → (step F W config (resume 0 now) s).0 ≡ ok tt)
  unfolding step run_task finish_current kick_current
  task-Moves now (spawned c hash) e = (
    one (
        Moves.advance (spawned c hash)
          (started c hash (get_most_recent_finished_contributor s.contributors_db)) e refl
          (ground arith) (ground arith)),
    λ n. ground arith,
  )
  task-Moves now (started c hash p) e =
      elim (Attempt-cases (F.verification_job c hash p s.contribution_files_store).0) [
        | inl (u, d) ↦ (
          one (
              Moves.advance (started c hash p) (verified c none) e refl (ground (arith, d))
                (ground (arith, d))),
          λ n. ground (arith, d),
        )
        | inr (inl (x, d)) ↦ (
          one (
              Moves.advance (started c hash p) (verified c (some x)) e refl (ground (arith, d))
                (ground (arith, d))),
          λ n. ground (arith, d),
        )
        | inr (inr d) ↦ (
          one (Moves.rest (ground (arith, d)) (ground (arith, d))),
          λ n. absurd (n c hash p s.contribution_files_store d),
        )
      ]
  task-Moves now (verified c none) e =
      let (r, cur, m, h, k) = verifying-current (verified c none) e in
      (
        one (Moves.accept (verified c none) r now e k m h (ground arith) (ground arith)),
        λ n. ground arith,
      )
  task-Moves now (verified c (some x)) e =
      let (r, cur, m, h, k) = verifying-current (verified c (some x)) e in
      (
        one (
            Moves.reject (verified c (some x)) r now (verification_failed x) e k m h (ground arith)
              (ground arith)),
        λ n. ground arith,
      )
