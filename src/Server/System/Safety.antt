-- ===== src/Server/System/Safety.antt =====
-- What holds in every state that the server can reach.
use aptos_setup_ceremony.Base.{
  ℕ, zero, suc, ◌≡◌, refl, ap, inl, inr, true, none, List, [], ◌∷◌, Memᴰ,
}
use aptos_setup_ceremony.Server.Authentication.{Wire}
use aptos_setup_ceremony.Server.Config.{Config}
use aptos_setup_ceremony.Server.Error.{ok, Outcome-cases}
use aptos_setup_ceremony.Server.State.{FilesStore, State}
use aptos_setup_ceremony.Server.Store.Row.{queued, ContributorRow}
use aptos_setup_ceremony.Server.Queue.{is_some, IsFresh}
use aptos_setup_ceremony.Server.Queue.Verifying.{IsGood, Coupled, free, busy, front_unique}
use aptos_setup_ceremony.Server.Queue.Moves.Kept.{Moves-IsGood}
use aptos_setup_ceremony.Server.System.{Event, request, tick, resume, step, run, get_elem?}
use aptos_setup_ceremony.Server.System.Requests.{request-Moves, tick-Moves}
use aptos_setup_ceremony.Server.System.Running.{task-Moves}

-- The clock of an event has passed the joining times of the queue.
abbrev pub IsTimely : {S : Type 0} → Event → State S → Type 0
IsTimely (request e r) s = IsFresh e.now s.contributors_db
IsTimely (tick _ _) s = Unit {0}
IsTimely (resume _ _) s = Unit {0}

-- The server's state when it has just been set up.
abbrev pub init : {S : Type 0} → S → State S
init files = record { contributors_db = []; contribution_files_store = files; tasks = [] }

module _ (F : FilesStore) (W : Wire) (config : Config) where
  -- Each event of a run comes when its clock is right.
  abbrev pub AllTimely : List Event → State F.St → Type 0
  AllTimely [] s = Unit {0}
  AllTimely (e ∷ es) s = IsTimely e s × AllTimely es (step F W config e s).1

  -- The invariant of the server: of the table, and of the table with the running verifications.
  abbrev pub Good : State F.St → Type 0
  Good s = IsGood s.contributors_db s.tasks

  pub resume_none :
      (i now : ℕ) (s : State F.St)
      → get_elem? s.tasks i ≡ none
      → step F W config (resume i now) s ≡ (ok tt, s)
  unfolding step
  resume_none i now s e = rw (step, e) refl

  -- Every event keeps the invariant of the queue and of the running verifications.
  pub step-Good :
      (e : Event) (s : State F.St) → IsTimely e s → Good s → Good (step F W config e s).1
  unfolding step
  step-Good (request e r) s t g = Moves-IsGood (request-Moves F W config s g.table e r t) g
  step-Good (tick now later) s t g = Moves-IsGood (tick-Moves F W config s g.table now later) g
  step-Good (resume i now) s t g = go i g.coupled
    where
      go : (i : ℕ) → Coupled s.contributors_db s.tasks → Good (step F W config (resume i now) s).1
      go zero (busy u r e m h k) = Moves-IsGood (task-Moves F W config s g now u e).0 g
      go zero (free e none_is) = rw (resume_none zero now s (ap (λ ts. get_elem? ts zero) e)) g
      go (suc j) (busy u r e m h k) =
          rw (resume_none (suc j) now s (ap (λ ts. get_elem? ts (suc j)) e)) g
      go (suc j) (free e none_is) =
          rw (resume_none (suc j) now s (ap (λ ts. get_elem? ts (suc j)) e)) g

  -- Every run of requests, ticks and stretches of verifications from a state with the invariant ends
  -- in one with the invariant, if each request comes when the clock has passed the joining times of
  -- the queue.
  pub run-Good :
      (es : List Event) (s : State F.St) → AllTimely es s → Good s → Good (run F W config es s).1
  unfolding run
  run-Good [] s t g = g
  run-Good (e ∷ es) s t g = elim (Outcome-cases (step F W config e s).0) [
    | inl p ↦ rw (run, p) (step-Good e s t.0 g)
    | inr (inl (x, p)) ↦ rw (run, p) (step-Good e s t.0 g)
    | inr (inr (x, p)) ↦ rw (run, p) (run-Good es (step F W config e s).1 t.1 (step-Good e s t.0 g))
  ]

  nobody : {r : ContributorRow} → Memᴰ r [] → ⊥
  nobody m = elim m [ ]

  -- The state after the start: no contributor, and no task.
  pub init-Good : (files : F.St) → Good (init files)
  init-Good files = record {
    table = record {
      valid = λ r m. absurd (nobody m);
      unique = λ r s m n. absurd (nobody m);
      distinct = λ r s m n. absurd (nobody m);
      active = λ r m. absurd (nobody m);
    };
    coupled = free refl (λ r m. absurd (nobody m));
  }

  -- In every state of a run from a state with the invariant, each of whose requests comes when the
  -- clock has passed the joining times of the queue, at most one contributor is active: two queued
  -- rows that have both been given their turn are the same row.
  pub run-one_active :
      (es : List Event) (s : State F.St)
      → AllTimely es s
      → Good s
      → (r q : ContributorRow) → Memᴰ r (run F W config es s).1.contributors_db
      → Memᴰ q (run F W config es s).1.contributors_db
      → r.status ≡ queued
      → q.status ≡ queued
      → is_some r.started_download_at ≡ true
      → is_some q.started_download_at ≡ true
      → r ≡ q
  run-one_active es s t good r q m n w w' a a' =
      let g = run-Good es s t good in
      front_unique _ g.table r q m n w w' (g.table.active r m w a) (g.table.active q n w' a')
