-- ===== src/Server/System.antt =====
-- The running server, server/src/serve.rs: requests, ticks and spawned verifications, in any order.
-- Each event holds the database's lock, so the events of the system come one after another.
pub mod Refines
pub mod Safety
pub mod Requests
pub mod Running
pub mod NoPanic
pub mod Ends
pub mod Turn
pub mod Restart
use aptos_setup_ceremony.Base.{ℕ, zero, suc, ◌≡◌, Option, none, some, List, [], ◌∷◌}
use aptos_setup_ceremony.Server.Authentication.{Request, Wire}
use aptos_setup_ceremony.Server.Config.{Config}
use aptos_setup_ceremony.Server.Dispatch.{Surroundings, request_handler}
use aptos_setup_ceremony.Server.Error.{Outcome, ok, err, panic}
use aptos_setup_ceremony.Server.Handlers.{handle_tick}
use aptos_setup_ceremony.Server.State.{FilesStore, State, Task}
use aptos_setup_ceremony.Server.Tasks.{run_task}

pub data Event : Type 0 where
  request : Surroundings → Request → Event
  tick : ℕ → ℕ → Event
  resume : ℕ → ℕ → Event

module _ {A : Type 0} where
  abbrev pub get_elem? : List A → ℕ → Option A
  get_elem? [] i = none
  get_elem? (x ∷ xs) zero = some x
  get_elem? (x ∷ xs) (suc i) = get_elem? xs i

  -- The list with its element `i` replaced, or taken out.
  abbrev pub splice : List A → ℕ → Option A → List A
  splice [] i v = []
  splice (x ∷ xs) zero none = xs
  splice (x ∷ xs) zero (some v) = v ∷ xs
  splice (x ∷ xs) (suc i) v = x ∷ splice xs i v

-- Whether the process still runs: a panic has aborted it.
abbrev pub alive {ℓ} : {A : Type ℓ} → Outcome A → Outcome (Unit {0})
alive (ok _) = ok tt
alive (err _) = ok tt
alive panic = panic

module _ (F : FilesStore) (W : Wire) (config : Config) where
  open F use {St}

  unfoldable pub step : Event → State St → Outcome (Unit {0}) × State St
  step (request e r) s = let a = request_handler F W config e r s in (alive a.0, a.1)
  step (tick now later) s = let a = handle_tick F config now later s in (alive a.0, a.1)
  step (resume i now) s = elim (get_elem? s.tasks i) [
    | none ↦ (ok tt, s)
    | some t ↦
        let a = run_task F now t s in
        elim a.0 [
          | ok t' ↦ (ok tt, record a.1 { tasks = splice a.1.tasks i t' })
          | err e ↦ (ok tt, record a.1 { tasks = splice a.1.tasks i none })
          | panic ↦ (panic, a.1)
        ]
  ]

  -- A run of the server: it stops at a panic.
  unfoldable pub run : List Event → State St → Outcome (Unit {0}) × State St
  run [] s = (ok tt, s)
  run (e ∷ es) s =
      let a = step e s in
      elim a.0 [ ok _ ↦ run es a.1 | err x ↦ (err x, a.1) | panic ↦ (panic, a.1) ]
