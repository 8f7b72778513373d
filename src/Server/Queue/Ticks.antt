-- ===== src/Server/Queue/Ticks.antt =====
-- The tick, over the table: `handle_tick` of server/src/handlers.rs.
use aptos_setup_ceremony.Base.{
  ℕ, ◌≡◌, ◌≢◌, ◌⊎◌, refl, sym, ap, ◌∙◌, inl, inr, Bool, true, Option, none, some, Option-cases, [],
  ◌∷◌, Memᴰ, map, ◌==◌, ==_iff, Bool-cases, if◌then◌else◌, arith,
}
use aptos_setup_ceremony.Base.Int.{ℤ, scale_ℤ, sub_ℕ, ltb_ℤ}
use aptos_setup_ceremony.Server.Config.{
  Config, IsBounded, ping_timeout, download_timeout, contribute_timeout, upload_timeout,
}
use aptos_setup_ceremony.Server.Error.{
  KickedError, ping_timed_out, download_timed_out, compute_timed_out, upload_timed_out, ok, panic,
  Outcome-cases,
}
use aptos_setup_ceremony.Server.State.{FilesStore, State}
use aptos_setup_ceremony.Server.Store.Row.{
  queued, kicked, CurrentContributionStep, ContributorRow, Table, update_where, mark_kicked,
  mark_started_download, set_kicked, set_started_download, download_not_started,
  get_current_contribution_step,
}
use aptos_setup_ceremony.Server.Store.Db.{get_current}
use aptos_setup_ceremony.Server.Handlers.{handle_tick, elapsed}
use aptos_setup_ceremony.Server.Queue.{Inv}
use aptos_setup_ceremony.Server.Queue.Reads.{get_current-some, get_current-none}
use aptos_setup_ceremony.Server.Queue.Verifying.{front_unique}
use aptos_setup_ceremony.Server.Queue.Moves.{IsHead}
use aptos_setup_ceremony.Server.Queue.Effects.{
  overdue, overdue-no_error, handle_tick-none, handle_tick-overdue, handle_tick-in_time,
}

-- What a tick at the time `t` makes of the row at the head of the queue, by its columns: the upload
-- that has ended is being verified and is left alone, and otherwise the ping and then the latest step
-- that has begun are held against their limits. Where none has begun, the download does.
module _ (config : Config) (t later : ℕ) where
  abbrev nanos : ℤ → ℤ
  nanos secs = scale_ℤ secs 1_000_000_000

  abbrev is_late : ℤ → ℕ → Bool
  is_late secs start = ltb_ℤ (nanos secs) (sub_ℕ t start)

  abbrev out : (ℤ → ℤ → KickedError) → ℤ → ℕ → ContributorRow → ContributorRow
  out text secs start r = record r {
    status = kicked;
    kicked_at = some later;
    updated_timestamp = later;
    kicked_error = some (text (sub_ℕ t start) (nanos secs));
  }

  abbrev held : (ℤ → ℤ → KickedError) → ℤ → ℕ → ContributorRow → ContributorRow
  held text secs start r = if is_late secs start then out text secs start r else r

  abbrev begun : ContributorRow → ContributorRow
  begun r = record r { started_download_at = some later; updated_timestamp = later }

  abbrev ticked_step : Option ℕ → Option ℕ → Option ℕ → ContributorRow → ContributorRow
  ticked_step (some start) _ _ r = held upload_timed_out config.upload_timeout_secs start r
  ticked_step none (some start) _ r = held compute_timed_out config.contribute_timeout_secs start r
  ticked_step none none (some start) r =
      held download_timed_out config.download_timeout_secs start r
  ticked_step none none none r = begun r

  abbrev ticked_row : Option ℕ → ContributorRow → ContributorRow
  ticked_row (some _) r = r
  ticked_row none r =
      if is_late config.ping_timeout_secs r.updated_timestamp
      then out ping_timed_out config.ping_timeout_secs r.updated_timestamp r
      else ticked_step r.started_upload_at r.started_compute_at r.started_download_at r

  abbrev pub ticked : ContributorRow → ContributorRow
  ticked r = ticked_row r.finished_upload_at r

-- The table with the row of `r` replaced.
abbrev pub replaced : ContributorRow → ContributorRow → Table → Table
replaced r r' db = map (λ x. if x.verifying_key == r.verifying_key then r' else x) db

-- A change of the row that a key stands for is its replacement.
update_where-replaced :
    (set : ContributorRow → ContributorRow) (r : ContributorRow) (db : Table)
    → ((x : ContributorRow) → Memᴰ x db → (x.verifying_key == r.verifying_key) ≡ true → x ≡ r)
    → update_where r.verifying_key set db ≡ replaced r (set r) db
unfolding update_where
update_where-replaced set r [] q = refl
update_where-replaced set r (x ∷ xs) q =
    let ih = update_where-replaced set r xs (λ y m. q y (Memᴰ.tail m)) in
    elim (Bool-cases (x.verifying_key == r.verifying_key)) [
      | inl h ↦ rw (h, ih, q x (Memᴰ.head refl) h) refl
      | inr h ↦ rw (h, ih) refl
    ]

replaced_self :
    (r : ContributorRow) (db : Table)
    → ((x : ContributorRow) → Memᴰ x db → (x.verifying_key == r.verifying_key) ≡ true → x ≡ r)
    → replaced r r db ≡ db
replaced_self r [] q = refl
replaced_self r (x ∷ xs) q =
    let ih = replaced_self r xs (λ y m. q y (Memᴰ.tail m)) in
    elim (Bool-cases (x.verifying_key == r.verifying_key)) [
      | inl h ↦ rw (h, ih, q x (Memᴰ.head refl) h) refl
      | inr h ↦ rw (h, ih) refl
    ]

module _ (config : Config) (b : IsBounded config) (t later : ℕ) (r : ContributorRow)
    (unverified : r.finished_verify_at ≡ none) where
  overdue_bounded : overdue config t r ≢ panic
  unfolding overdue ping_timeout download_timeout contribute_timeout upload_timeout
  overdue_bounded = ground (arith, b.ping_fits, b.download_fits, b.contribute_fits, b.upload_fits)

  ticked-overdue :
      (x : KickedError)
      → overdue config t r ≡ ok (some x)
      → ticked config t later r ≡ set_kicked later x r
  unfolding overdue ping_timeout download_timeout contribute_timeout upload_timeout elapsed
      get_current_contribution_step set_kicked
  ticked-overdue x o =
      ground (arith, o, unverified, b.ping_fits, b.download_fits, b.contribute_fits, b.upload_fits)

  ticked-in_time :
      overdue config t r ≡ ok none
      → ticked config t later r ≡ elim (get_current_contribution_step r) [
        | download_not_started ↦ set_started_download later r
        | _ ↦ r
      ]
  unfolding overdue ping_timeout download_timeout contribute_timeout upload_timeout elapsed
      get_current_contribution_step set_started_download
  ticked-in_time o =
      ground (arith, o, unverified, b.ping_fits, b.download_fits, b.contribute_fits, b.upload_fits)

module _ (F : FilesStore) (config : Config) (t later : ℕ) (s : State F.St)
    (v : Inv s.contributors_db) where
  abbrev db : Table
  db = s.contributors_db

  get_current-head : (r : ContributorRow) → IsHead db r → get_current db ≡ some r
  get_current-head r h = elim (Option-cases (get_current db)) [
    | inl e ↦ absurd (get_current-none db r e h.stored h.waits)
    | inr (x, e) ↦
        let (m, q, front) = get_current-some db v e in
        e ∙ ap some (front_unique db v x r m h.stored q h.waits front h.front)
  ]

  replaced_row :
      (set : ContributorRow → ContributorRow) (r : ContributorRow)
      → IsHead db r
      → update_where r.verifying_key set db ≡ replaced r (set r) db
  replaced_row set r h =
      update_where-replaced set r db λ x m e. v.unique x r m h.stored ((==_iff _ _).0 e)

  -- Where nobody is too late, the turn begins if it has not.
  begun_row :
      (r : ContributorRow)
      → IsHead db r
      → (st : CurrentContributionStep)
      → elim st [ download_not_started ↦ mark_started_download later r db | _ ↦ db ]
        ≡ replaced r (elim st [ download_not_started ↦ set_started_download later r | _ ↦ r ]) db
  unfolding mark_started_download
  begun_row r h download_not_started = replaced_row (set_started_download later) r h
  begun_row r h _ = sym (replaced_self r db λ x m e. v.unique x r m h.stored ((==_iff _ _).0 e))

  tick_row :
      (r : ContributorRow)
      → IsBounded config
      → IsHead db r
      → handle_tick F config t later s
        ≡ (ok tt, record s { contributors_db = replaced r (ticked config t later r) db })
  unfolding mark_kicked
  tick_row r b h =
      let e = get_current-head r h in
      let f = (v.valid r h.stored).only_finished in
      let unverified : r.finished_verify_at ≡ none = ground (arith, f, h.waits) in
      elim (Outcome-cases (overdue config t r)) [
        | inl o ↦ absurd (overdue_bounded config b t later r unverified o)
        | inr (inl (x, o)) ↦ absurd (overdue-no_error config t r x o)
        | inr (inr (some x, o)) ↦
            handle_tick-overdue F s config t later r x e o
            ∙ rw
                (
                  ticked-overdue config b t later r unverified x o,
                  replaced_row (set_kicked later x) r h,
                )
                refl
        | inr (inr (none, o)) ↦
            handle_tick-in_time F s config t later r e o
            ∙ rw (ticked-in_time config b t later r unverified o) (
                ap (λ d. (ok tt, record s { contributors_db = d }))
                  (begun_row r h (get_current_contribution_step r)))
      ]

  -- Over a table with the invariant, where the four limits of the configuration are durations, a tick
  -- succeeds. Either nobody is queued and it changes nothing, or a queued row stands in front of all
  -- others in the queue and it replaces this one row: it kicks where the ping or the running timed step
  -- is over its limit, with the text of the first limit that has passed, begins the download where no
  -- step has begun, and leaves a contribution that is being verified alone.
  pub handle_tick-ticked :
      IsBounded config
      → (((r : ContributorRow) → Memᴰ r db → r.status ≢ queued)
          × (handle_tick F config t later s ≡ (ok tt, s)))
        ⊎ ((r : ContributorRow) × IsHead db r
            × (handle_tick F config t later s
                ≡ (ok tt, record s { contributors_db = replaced r (ticked config t later r) db })))
  handle_tick-ticked b = elim (Option-cases (get_current db)) [
    | inl e ↦ inl (λ r m. get_current-none db r e m, handle_tick-none F s config t later e)
    | inr (r, e) ↦
        let (m, q, front) = get_current-some db v e in
        let h : IsHead db r = record { stored = m; waits = q; front = front } in
        inr (r, h, tick_row r b h)
  ]
