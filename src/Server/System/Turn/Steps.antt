-- ===== src/Server/System/Turn/Steps.antt =====
-- The requests of a turn, one after another: server/src/handlers.rs.
use aptos_setup_ceremony.Base.{
  ℕ, ◌≡◌, refl, sym, ap, ◌∙◌, String, true, inl, inr, Option, none, some, Option-cases, List, [],
  ◌∷◌, ◌++◌, arith,
}
use aptos_setup_ceremony.Contributor.{Contributor}
use aptos_setup_ceremony.Server.Error.{ok}
use aptos_setup_ceremony.Server.Responses.{StatusResponse}
use aptos_setup_ceremony.Server.State.{FilesStore, State, spawned}
use aptos_setup_ceremony.Server.Store.Row.{
  ContributorRow, Table, download_not_started, download_started, compute_started, upload_started,
  get_current_contribution_step, update_where, set_timestamp, set_started_download,
  set_started_compute, set_started_upload, set_finished_upload, update_timestamp,
  mark_started_download, mark_started_compute, mark_started_upload, mark_finished_upload,
}
use aptos_setup_ceremony.Server.Store.Db.{
  find_key, get_with_pos, get_most_recent_finished_contributor,
}
use aptos_setup_ceremony.Server.Handlers.{
  previous_url, check_correct_state, handle_get_status, handle_update_download_progress,
  handle_update_compute_progress, handle_update_upload_progress,
}
use aptos_setup_ceremony.Server.Queue.Reads.{find_key-some}
use aptos_setup_ceremony.Server.System.Turn.{
  AtHead, IsQuiet, Serves, AtHead-update_where, latest-update_where, touch-IsQuiet,
  download-IsQuiet, compute-IsQuiet, upload-IsQuiet, upload_end-IsQuiet,
}

-- What a step of the turn leaves: the row at its place, the latest finished contributor, and no task.
pub record Holds {S : Type 0} (previous : Option Contributor) (c : Contributor) (r : ContributorRow)
    (s : State S) : Type 0 where
  pub head : AtHead s.contributors_db c r
  pub latest : get_most_recent_finished_contributor s.contributors_db ≡ previous
  pub idle : s.tasks ≡ []

module _ (F : FilesStore) (c : Contributor) (hash : String) (previous : Option Contributor)
    (L : Serves F c hash previous) where
  previous_url-ok :
      (s : State F.St)
      → get_most_recent_finished_contributor s.contributors_db ≡ previous
      → L.Before s.contribution_files_store
      → (u : Option String) × (t : F.St) × (previous_url F s
          ≡ (ok u, record s { contribution_files_store = t }))
        × L.Before t
  unfolding previous_url
  previous_url-ok s l b =
      elim (Option-cases (get_most_recent_finished_contributor s.contributors_db)) [
        | inl e ↦ (none, s.contribution_files_store, ground (arith, e), b)
        | inr (p, e) ↦
            let (u, t, f, b') = L.url p s.contribution_files_store (sym l ∙ e) b in
            (some u, t, ground (arith, e, f), b')
      ]

  -- A quiet change of the contributor's row keeps what holds.
  quiet-Holds :
      (set : ContributorRow → ContributorRow) (db : Table) (r r₀ : ContributorRow)
      → IsQuiet set
      → r₀.verifying_key ≡ c.verifying_key
      → AtHead db c r
      → get_most_recent_finished_contributor db ≡ previous
      → AtHead (update_where r₀.verifying_key set db) c (set r)
        × (get_most_recent_finished_contributor (update_where r₀.verifying_key set db) ≡ previous)
  quiet-Holds set db r r₀ q k h l =
      (AtHead-update_where set db c r r₀ q k h, latest-update_where set db c r r₀ q k h ∙ l)

  pub start_turn :
      (now later : ℕ) (r : ContributorRow) (s : State F.St)
      → Holds previous c r s
      → L.Before s.contribution_files_store
      → get_current_contribution_step r ≡ download_not_started
      → (u : Option String) × (s' : State F.St) × (handle_get_status F c now later s
          ≡ (ok (StatusResponse.ready_to_download_previous u), s'))
        × Holds previous c (set_started_download later (set_timestamp now r)) s'
        × L.Before s'.contribution_files_store
  unfolding handle_get_status get_with_pos update_timestamp mark_started_download
  start_turn now later r s h b st =
      let k = (find_key-some c.verifying_key s.contributors_db h.head.found).1 in
      let (touched, l) =
        quiet-Holds (set_timestamp now) s.contributors_db r r (touch-IsQuiet now) k h.head
          h.latest in
      let db' = update_where r.verifying_key (set_timestamp now) s.contributors_db in
      let db'' = update_where r.verifying_key (set_started_download later) db' in
      let (begun, l') =
        quiet-Holds (set_started_download later) db' (set_timestamp now r) r
          (download-IsQuiet later) k touched l in
      let (u, t, e, b') = previous_url-ok (record s { contributors_db = db'' }) l' b in
      (
        u,
        record s { contributors_db = db''; contribution_files_store = t },
        ground (arith, h.head.found, h.head.waits, h.head.first, st, e),
        record { head = begun; latest = l'; idle = h.idle },
        b',
      )

  pub end_download :
      (now start : ℕ) (r : ContributorRow) (s : State F.St)
      → Holds previous c r s
      → get_current_contribution_step r ≡ download_started start
      → (s' : State F.St) × (handle_update_download_progress F true c now s ≡ (ok tt, s'))
        × Holds previous c (set_started_compute now r) s'
        × (s'.contribution_files_store ≡ s.contribution_files_store)
  unfolding handle_update_download_progress get_with_pos check_correct_state mark_started_compute
  end_download now start r s h st =
      let k = (find_key-some c.verifying_key s.contributors_db h.head.found).1 in
      let (moved, l) =
        quiet-Holds (set_started_compute now) s.contributors_db r r (compute-IsQuiet now) k h.head
          h.latest in
      (
        record s {
          contributors_db =
              update_where r.verifying_key (set_started_compute now) s.contributors_db;
        },
        ground (arith, h.head.found, h.head.waits, h.head.first, st),
        record { head = moved; latest = l; idle = h.idle },
        refl,
      )

  pub end_compute :
      (now start : ℕ) (r : ContributorRow) (s : State F.St)
      → Holds previous c r s
      → get_current_contribution_step r ≡ compute_started start
      → (s' : State F.St) × (handle_update_compute_progress F true c now s ≡ (ok tt, s'))
        × Holds previous c (set_started_upload now r) s'
        × (s'.contribution_files_store ≡ s.contribution_files_store)
  unfolding handle_update_compute_progress get_with_pos check_correct_state mark_started_upload
  end_compute now start r s h st =
      let k = (find_key-some c.verifying_key s.contributors_db h.head.found).1 in
      let (moved, l) =
        quiet-Holds (set_started_upload now) s.contributors_db r r (upload-IsQuiet now) k h.head
          h.latest in
      (
        record s {
          contributors_db = update_where r.verifying_key (set_started_upload now) s.contributors_db;
        },
        ground (arith, h.head.found, h.head.waits, h.head.first, st),
        record { head = moved; latest = l; idle = h.idle },
        refl,
      )

  pub get_plan :
      (now later start : ℕ) (r : ContributorRow) (s : State F.St)
      → Holds previous c r s
      → L.Before s.contribution_files_store
      → get_current_contribution_step r ≡ upload_started start
      → (v : String) × (us : List String) × (s' : State F.St) × (handle_get_status F c now later s
          ≡ (ok (StatusResponse.ready_for_upload (v ∷ us)), s'))
        × Holds previous c (set_timestamp now r) s'
        × L.Planned (v ∷ us) s'.contribution_files_store
  unfolding handle_get_status get_with_pos update_timestamp
  get_plan now later start r s h b st =
      let k = (find_key-some c.verifying_key s.contributors_db h.head.found).1 in
      let (moved, l) =
        quiet-Holds (set_timestamp now) s.contributors_db r r (touch-IsQuiet now) k h.head
          h.latest in
      let db' = update_where r.verifying_key (set_timestamp now) s.contributors_db in
      let (v, us, t, e, p) = L.plan s.contribution_files_store b in
      (
        v,
        us,
        record s { contributors_db = db'; contribution_files_store = t },
        ground (arith, h.head.found, h.head.waits, h.head.first, st, e),
        record { head = moved; latest = l; idle = h.idle },
        p,
      )

  pub end_upload :
      (now start : ℕ) (r : ContributorRow) (s : State F.St)
      → Holds previous c r s
      → L.Uploaded s.contribution_files_store
      → get_current_contribution_step r ≡ upload_started start
      → (s' : State F.St) × (handle_update_upload_progress F true hash c now s ≡ (ok tt, s'))
        × (find_key c.verifying_key s'.contributors_db ≡ some (set_finished_upload now hash r))
        × (get_most_recent_finished_contributor s'.contributors_db ≡ previous)
        × (s'.tasks ≡ spawned c hash ∷ [])
        × L.Ended s'.contribution_files_store
  unfolding handle_update_upload_progress get_with_pos check_correct_state mark_finished_upload
  end_upload now start r s h w st =
      let k = (find_key-some c.verifying_key s.contributors_db h.head.found).1 in
      let (t, e, ended) = L.finalize s.contribution_files_store w in
      let set = set_finished_upload now hash in
      let (moved, l) =
        quiet-Holds set s.contributors_db r r (upload_end-IsQuiet now hash) k h.head h.latest in
      (
        record {
          contributors_db = update_where r.verifying_key set s.contributors_db;
          contribution_files_store = t;
          tasks = s.tasks ++ spawned c hash ∷ [];
        },
        ground (arith, h.head.found, h.head.waits, h.head.first, st, e),
        moved.found,
        l,
        ap (λ ts. ts ++ spawned c hash ∷ []) h.idle,
        ended,
      )
