-- ===== src/Server/System/Refines.antt =====
-- Every request makes only the moves of the queue's state machine.
use aptos_setup_ceremony.Base.{
  ℕ, ◌≡◌, ◌≢◌, ==_refl, ◌==◌, Bool-cases, refl, sym, subst, inl, inr, Bool, true, false, some,
  arith, String, Memᴰ,
}
use aptos_setup_ceremony.Contributor.{Contributor}
use aptos_setup_ceremony.Server.Error.{Outcome}
use aptos_setup_ceremony.Server.State.{FilesStore, State, Handler, ◌>>=◌, lift}
use aptos_setup_ceremony.Server.Store.Row.{
  CurrentContributionStep, download_started, compute_started, upload_started, queued, kicked,
  ContributorRow, Table, get_current_contribution_step, same_variant, update_timestamp,
  mark_started_download, set_timestamp, update_where,
}
use aptos_setup_ceremony.Server.Store.Db.{find_key, pos_of}
use aptos_setup_ceremony.Server.Handlers.{
  handle_join, handle_get_status, handle_update_download_progress, handle_update_compute_progress,
  handle_update_upload_progress, handle_register,
}
use aptos_setup_ceremony.Server.Queue.{
  is_some, IsValid, Inv, IsFresh, update_where-Memᴰ, Memᴰ-update_where,
}
use aptos_setup_ceremony.Server.Queue.Reads.{find_key-some, pos_of-IsFront}
use aptos_setup_ceremony.Server.Queue.Effects.{
  handle_join_effect, handle_get_status_effect, handle_update_download_progress_effect,
  handle_update_compute_progress_effect, handle_update_upload_progress_effect,
  handle_register_effect,
}
use aptos_setup_ceremony.Server.Queue.Moves
use aptos_setup_ceremony.Server.Queue.Moves.{IsHead, Move, Moves, one, then}

-- The steps that a progress request names.
abbrev is_timed : CurrentContributionStep → Bool
is_timed (download_started _) = true
is_timed (compute_started _) = true
is_timed (upload_started _) = true
is_timed _ = false

-- What a handler returns after its last write does not matter to the state.
pub state-lift :
    {S A B : Type 0} (m : Handler S A) (g : A → Outcome B) (s : State S)
    → ((m >>= λ a. lift (g a)) s).1 ≡ (m s).1
state-lift m g s = ground arith

-- A row past the start of its download, and not kicked or finished, is queued.
started-queued :
    (r : ContributorRow)
    → IsValid r
    → r.status ≢ kicked
    → is_some r.started_download_at ≡ true
    → is_some r.finished_verify_at ≡ false
    → r.status ≡ queued
started-queued r w k a f = ground arith

-- A row that passes `check_correct_state` at a timed step is the head of the queue.
timed-IsHead :
    (db : Table) (v : Inv db) (c : Contributor) (r : ContributorRow)
    (step : CurrentContributionStep)
    → find_key c.verifying_key db ≡ some r
    → r.status ≢ kicked
    → pos_of db r ≡ 0
    → is_timed step ≡ true
    → same_variant (get_current_contribution_step r) step ≡ true
    → IsHead db r
unfolding get_current_contribution_step
timed-IsHead db v c r step found k p t h = record {
  stored = m;
  waits = q;
  front = pos_of-IsFront db v r m q p;
}
  where
    m : Memᴰ r db
    m = (find_key-some c.verifying_key db found).0

    q : r.status ≡ queued
    q = started-queued r (v.valid r m) k (let w = v.valid r m in ground arith) (ground arith)

-- Touching the head leaves it the head.
touch-IsHead :
    (db : Table) (r : ContributorRow) (now : ℕ)
    → IsHead db r
    → IsHead (update_timestamp now r db) (set_timestamp now r)
unfolding update_timestamp set_timestamp
touch-IsHead db r now h = record {
  stored =
      subst (λ t. Memᴰ t (update_where r.verifying_key (set_timestamp now) db))
        (rw (==_refl r.verifying_key))
        (update_where-Memᴰ r.verifying_key (set_timestamp now) db h.stored);
  waits = h.waits;
  front = λ s' n'.
      let (s, n, e) = Memᴰ-update_where r.verifying_key (set_timestamp now) db n' in
      rw e (elim (Bool-cases (s.verifying_key == r.verifying_key)) [
        | inl hit ↦ rw hit (h.front s n)
        | inr miss ↦ rw miss (h.front s n)
      ]);
}

-- The moves that lead from one state to another.
abbrev pub Leads : {S : Type 0} → State S → State S → Type 0
Leads s s' = Moves s.contributors_db s.tasks s'.contributors_db s'.tasks

pub Leads-lift :
    {S A B : Type 0} (m : Handler S A) (g : A → Outcome B) (s : State S)
    → Leads s (m s).1
    → Leads s ((m >>= λ a. lift (g a)) s).1
Leads-lift m g s h = subst (λ t. Leads s t) (sym (state-lift m g s)) h

module _ (F : FilesStore) (s : State F.St) (v : Inv s.contributors_db) where
  abbrev To : State F.St → Type 0
  To = Leads s

  pub join-Moves :
      (c : Contributor) (now d k u : ℕ)
      → IsFresh now s.contributors_db
      → To (handle_join F c now d k u s).1
  join-Moves c now d k u fresh =
      let (t, e) = handle_join_effect F s c now d k u in
      elim e [
        | inl e ↦ one (Moves.rest e t)
        | inr (r, found, out, e) ↦
            one (Moves.join r now d k u (find_key-some _ _ found).0 out fresh e t)
      ]

  pub get_status-Moves :
      (c : Contributor) (now later : ℕ) → To (handle_get_status F c now later s).1
  unfolding mark_started_download set_timestamp
  get_status-Moves c now later =
      let (t, e) = handle_get_status_effect F s c now later in
      elim e [
        | inl e ↦ one (Moves.rest e t)
        | inr (inl (r, found, e)) ↦ one (Moves.touch r now (find_key-some _ _ found).0 e t)
        | inr (inr (r, found, q, p, st, e)) ↦
            let m = (find_key-some _ _ found).0 in
            let h : IsHead s.contributors_db r = record {
              stored = m;
              waits = q;
              front = pos_of-IsFront _ v r m q p;
            } in
            then (one (Moves.touch r now m refl refl)) (
              Moves.start_download (set_timestamp now r) later (touch-IsHead _ r now h)
                (unfold get_current_contribution_step in st) e t)
      ]

  pub download_progress-Moves :
      (finished : Bool) (c : Contributor) (now : ℕ)
      → To (handle_update_download_progress F finished c now s).1
  download_progress-Moves finished c now =
      let (t, e) = handle_update_download_progress_effect F s finished c now in
      elim e [
        | inl e ↦ one (Moves.rest e t)
        | inr (inl (r, found, e)) ↦ one (Moves.touch r now (find_key-some _ _ found).0 e t)
        | inr (inr (r, found, k, p, st, e)) ↦
            one (Moves.start_compute r now (timed-IsHead _ v c r _ found k p refl st) st e t)
      ]

  pub compute_progress-Moves :
      (finished : Bool) (c : Contributor) (now : ℕ)
      → To (handle_update_compute_progress F finished c now s).1
  compute_progress-Moves finished c now =
      let (t, e) = handle_update_compute_progress_effect F s finished c now in
      elim e [
        | inl e ↦ one (Moves.rest e t)
        | inr (inl (r, found, e)) ↦ one (Moves.touch r now (find_key-some _ _ found).0 e t)
        | inr (inr (r, found, k, p, st, e)) ↦
            one (Moves.start_upload r now (timed-IsHead _ v c r _ found k p refl st) st e t)
      ]

  pub upload_progress-Moves :
      (finished : Bool) (hash : String) (c : Contributor) (now : ℕ)
      → To (handle_update_upload_progress F finished hash c now s).1
  upload_progress-Moves finished hash c now =
      elim (handle_update_upload_progress_effect F s finished hash c now) [
        | inl (t, inl e) ↦ one (Moves.rest e t)
        | inl (t, inr (r, found, e)) ↦ one (Moves.touch r now (find_key-some _ _ found).0 e t)
        | inr (r, found, k, p, st, e, t) ↦ one (
            Moves.finish_upload r now c hash (timed-IsHead _ v c r _ found k p refl st) st
              (find_key-some _ _ found).1 e t)
      ]

  pub register-Moves : (c : Contributor) (now : ℕ) → To (handle_register F c now s).1
  register-Moves c now =
      let (t, e) = handle_register_effect F s c now in
      elim e [
        | inl e ↦ one (Moves.rest e t)
        | inr (absent, e) ↦ one (Moves.register c now absent e t)
      ]
