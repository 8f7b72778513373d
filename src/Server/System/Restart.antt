-- ===== src/Server/System/Restart.antt =====
-- A verification that is lost: server/src/handlers.rs spawns it and stores nothing of it, so a process
-- that starts anew has the table, and no task.
use aptos_setup_ceremony.Base.{
  ℕ, ◌≡◌, refl, sym, ap, ◌∙◌, inl, inr, true, false, List, [], ◌∷◌, Memᴰ, arith,
}
use aptos_setup_ceremony.Server.Authentication.{Wire}
use aptos_setup_ceremony.Server.Config.{Config}
use aptos_setup_ceremony.Server.Error.{Outcome-cases}
use aptos_setup_ceremony.Server.State.{FilesStore, State, Task, spawned}
use aptos_setup_ceremony.Server.Store.Row.{
  ContributorRow, Table, get_current_contribution_step, same_variant, upload_started,
}
use aptos_setup_ceremony.Server.Queue.{Inv}
use aptos_setup_ceremony.Server.Queue.Verifying.{
  task_key, is_verifying, Coupled, free, busy, IsGood, front_unique, verifying-queued,
  verifying-IsFront,
}
use aptos_setup_ceremony.Server.Queue.Moves.{
  IsHead, Move, rest, touch, register, join, start_download, start_compute, start_upload,
  finish_upload, kick, advance, accept, reject, Moves, one, then,
}
use aptos_setup_ceremony.Server.Queue.Moves.Kept.{Move-IsGood}
use aptos_setup_ceremony.Server.System.{Event, request, tick, resume, step, run, get_elem?}
use aptos_setup_ceremony.Server.System.Requests.{request-Moves, tick-Moves}
use aptos_setup_ceremony.Server.System.Safety.{IsTimely, AllTimely, resume_none}

-- The row of the key stands in front of the queue with its upload finished, and no task runs.
pub record IsLost (key : ℕ) (db : Table) (ts : List Task) : Type 0 where
  pub table : Inv db
  pub row : ContributorRow
  pub stored : Memᴰ row db
  pub same_key : row.verifying_key ≡ key
  pub verifies : is_verifying row ≡ true
  pub idle : ts ≡ []

-- With the task that was lost, the invariant of the server would hold.
module _ (t : Task) where
  IsLost-IsGood : {db : Table} {ts : List Task} → IsLost (task_key t) db ts → IsGood db (t ∷ [])
  IsLost-IsGood l = record {
    table = l.table;
    coupled = busy t l.row refl l.stored l.verifies l.same_key;
  }

  IsGood-IsLost : {db : Table} → IsGood db (t ∷ []) → IsLost (task_key t) db []
  IsGood-IsLost g = go g.table g.coupled
    where
      go : {db : Table} → Inv db → Coupled db (t ∷ []) → IsLost (task_key t) db []
      go v (free e none_is) = absurd (cc)
      go v (busy u r e m h k) = record {
        table = v;
        row = r;
        stored = m;
        same_key = k ∙ ap task_key {x = u} {y = t} (cc);
        verifies = h;
        idle = refl;
      }

  started_row :
      (r : ContributorRow) (now : ℕ)
      → same_variant (get_current_contribution_step r) (upload_started now) ≡ true
      → is_verifying r ≡ false
  unfolding get_current_contribution_step
  started_row r now h = ground arith

  -- A move without a task is a move beside the lost one.
  Move-beside :
      {db db' : Table} {ts' : List Task}
      → IsGood db (t ∷ [])
      → Move db [] db' ts'
      → (ts' ≡ []) × Move db (t ∷ []) db' (t ∷ [])
  Move-beside g (rest e f) = (f, rest e refl)
  Move-beside g (touch r now m e f) = (f, touch r now m e refl)
  Move-beside g (register c now a e f) = (f, register c now a e refl)
  Move-beside g (join r now d k u m o w e f) = (f, join r now d k u m o w e refl)
  Move-beside g (start_download r now h st e f) = (f, start_download r now h st e refl)
  Move-beside g (start_compute r now h st e f) = (f, start_compute r now h st e refl)
  Move-beside g (start_upload r now h st e f) = (f, start_upload r now h st e refl)
  Move-beside {db} g (finish_upload r now c hash h st k e f) = absurd (
      let l = IsGood-IsLost g in
      let q = verifying-queued l.row l.verifies in
      let same =
        front_unique db g.table r l.row h.stored l.stored h.waits q h.front
          (verifying-IsFront db g.table l.row l.stored l.verifies) in
      ground (arith, ap is_verifying same, started_row r now st, l.verifies))
  Move-beside g (kick r now x h st e f) = (f, kick r now x h st e refl)
  Move-beside g (advance u u' e k e' f) = absurd (cc)
  Move-beside g (accept u r now e k m h e' f) = absurd (cc)
  Move-beside g (reject u r now x e k m h e' f) = absurd (cc)

  Moves-IsGood_beside :
      {db : Table} {ts : List Task}
      → IsGood db (t ∷ [])
      → ts ≡ []
      → {db' : Table} {ts' : List Task} → Moves db ts db' ts'
      → IsGood db' (t ∷ []) × (ts' ≡ [])
  Moves-IsGood_beside g e (one m) =
      let (f, n) = Move-beside g (rw (sym e) m) in (Move-IsGood n g, f)
  Moves-IsGood_beside g e (then ms m) =
      let (g', f) = Moves-IsGood_beside g e ms in
      let (f', n) = Move-beside g' (rw (sym f) m) in (Move-IsGood n g', f')

-- Some task of a key.
abbrev lost_task : ℕ → Task
lost_task key = spawned (record { name = ""; email = ""; verifying_key = key }) ""

module _ (F : FilesStore) (W : Wire) (config : Config) where
  Leads-IsLost :
      (key : ℕ) (s s' : State F.St)
      → IsLost key s.contributors_db s.tasks
      → Moves s.contributors_db s.tasks s'.contributors_db s'.tasks
      → IsLost key s'.contributors_db s'.tasks
  Leads-IsLost key s s' l ms =
      let t = lost_task key in
      let (g, e) = Moves-IsGood_beside t (IsLost-IsGood t l) l.idle ms in rw e (IsGood-IsLost t g)

  step-IsLost :
      (key : ℕ) (e : Event) (s : State F.St)
      → IsTimely e s
      → IsLost key s.contributors_db s.tasks
      → let s' = (step F W config e s).1 in IsLost key s'.contributors_db s'.tasks
  unfolding step
  step-IsLost key (request e r) s fresh l =
      Leads-IsLost key s (step F W config (request e r) s).1 l
        (request-Moves F W config s l.table e r fresh)
  step-IsLost key (tick now later) s fresh l =
      Leads-IsLost key s (step F W config (tick now later) s).1 l
        (tick-Moves F W config s l.table now later)
  step-IsLost key (resume i now) s fresh l =
      rw (resume_none F W config i now s (ap (λ ts. get_elem? ts i) l.idle)) l

  run-IsLost_kept :
      (key : ℕ) (es : List Event) (s : State F.St)
      → AllTimely F W config es s
      → IsLost key s.contributors_db s.tasks
      → let s' = (run F W config es s).1 in IsLost key s'.contributors_db s'.tasks
  unfolding run
  run-IsLost_kept key [] s t l = l
  run-IsLost_kept key (e ∷ es) s t l =
      let l' = step-IsLost key e s t.0 l in
      elim (Outcome-cases (step F W config e s).0) [
        | inl p ↦ rw (run, p) l'
        | inr (inl (x, p)) ↦ rw (run, p) l'
        | inr (inr (x, p)) ↦ rw (run, p) (run-IsLost_kept key es (step F W config e s).1 t.1 l')
      ]

  -- A contributor stands in front of the queue with the upload finished and no verification running,
  -- as after a restart of the process during the verification. Then every run of the server leaves it
  -- so: whatever requests and ticks come, each request when its clock is right, the contributor still
  -- stands in front of the queue, the upload finished, and no verification runs.
  pub run-IsLost :
      (key : ℕ) (es : List Event) (s : State F.St)
      → AllTimely F W config es s
      → IsLost key s.contributors_db s.tasks
      → let s' = (run F W config es s).1 in
        ((r : ContributorRow) × IsHead s'.contributors_db r
          × (r.verifying_key ≡ key)
          × (is_verifying r ≡ true))
        × (s'.tasks ≡ [])
  run-IsLost key es s t l =
      let s' = (run F W config es s).1 in
      let l' = run-IsLost_kept key es s t l in
      let front = verifying-IsFront s'.contributors_db l'.table l'.row l'.stored l'.verifies in
      let head : IsHead s'.contributors_db l'.row = record {
        stored = l'.stored;
        waits = verifying-queued l'.row l'.verifies;
        front = front;
      } in
      ((l'.row, head, l'.same_key, l'.verifies), l'.idle)
