-- ===== src/Server/Queue/Moves/Kept.antt =====
-- The moves keep what holds of the server between them.
use aptos_setup_ceremony.Base.{ℕ, ◌≡◌, refl, sym, ap, ◌∙◌, true, false, Memᴰ, arith, List, [], ◌∷◌}
use aptos_setup_ceremony.Server.State.{Task, spawned}
use aptos_setup_ceremony.Server.Store.Row.{
  queued, ContributorRow, Table, update_where, get_current_contribution_step, same_variant,
  upload_started, verifying, enqueue, update_timestamp, mark_started_download, mark_started_compute,
  mark_started_upload, mark_finished_upload, mark_finished_verify, mark_kicked, set_enqueued,
  set_timestamp, set_started_download, set_started_compute, set_started_upload, set_finished_upload,
  set_finished_verify, set_kicked,
}
use aptos_setup_ceremony.Server.Queue.{is_some, IsValid, Inv}
use aptos_setup_ceremony.Server.Queue.Update.{IsSound, update_where-Inv}
use aptos_setup_ceremony.Server.Queue.Statements.{
  set_enqueued-IsSound, set_timestamp-IsSound, set_started_download-IsSound,
  set_started_compute-IsSound, set_started_upload-IsSound, set_finished_upload-IsSound,
  set_finished_verify-IsSound, set_kicked-IsSound,
}
use aptos_setup_ceremony.Server.Queue.Register.{register-IsGood}
use aptos_setup_ceremony.Server.Queue.Verifying.{
  task_key, is_verifying, Coupled, free, busy, update_where-Coupled, update_where-busy,
  update_where-free, IsGood, verifying-queued,
}
use aptos_setup_ceremony.Server.Queue.Moves.{
  Move, rest, touch, register, join, start_download, start_compute, start_upload, finish_upload,
  kick, advance, accept, reject, Moves, one, then,
}

step_of_verifying :
    (r : ContributorRow)
    → IsValid r
    → r.status ≡ queued
    → same_variant (get_current_contribution_step r) verifying ≡ false
    → is_verifying r ≡ false
unfolding get_current_contribution_step
step_of_verifying r w q h = ground arith

-- An update by the key of the stored row `r` is about `r` alone.
module _ (db : Table) (v : Inv db) (r : ContributorRow) (m : Memᴰ r db) where
  only {ℓ} :
      (P : ContributorRow → Type ℓ)
      → P r
      → (s : ContributorRow) → Memᴰ s db
      → s.verifying_key ≡ r.verifying_key
      → P s
  only P p s n k = rw (v.unique s r n m k) p

  quiet :
      (set : ContributorRow → ContributorRow) (ts : List Task)
      → Coupled db ts
      → IsSound db set r
      → is_verifying (set r) ≡ is_verifying r
      → IsGood (update_where r.verifying_key set db) ts
  quiet set ts c sound same = record {
    table = update_where-Inv db r.verifying_key set v (only (IsSound db set) sound);
    coupled =
        update_where-Coupled db r.verifying_key set ts
          (only
            (λ s.
              ((set s).verifying_key ≡ s.verifying_key) × (is_verifying (set s) ≡ is_verifying s))
            (sound.key_kept, same))
          c;
  }

  same_variant-started :
      (t : ℕ)
      → same_variant (get_current_contribution_step r) (upload_started t) ≡ true
      → (is_some r.started_upload_at ≡ true) × (is_some r.finished_upload_at ≡ false)
  unfolding get_current_contribution_step
  same_variant-started t h = ground arith

-- Every move keeps what holds of the server.
pub Move-IsGood :
    {db db' : Table} {ts ts' : List Task} → Move db ts db' ts' → IsGood db ts → IsGood db' ts'
unfolding update_timestamp enqueue mark_started_download mark_started_compute mark_started_upload
    mark_finished_upload mark_finished_verify mark_kicked
Move-IsGood (rest e f) g = rw (e, f) g
Move-IsGood {db} {ts} (touch r now m e f) g =
    rw (e, f)
      (quiet db g.table r m (set_timestamp now) ts g.coupled
        (set_timestamp-IsSound db g.table r m now) (unfold set_timestamp in refl))
Move-IsGood {db} {ts} (register c now absent e f) g =
    rw (e, f) (register-IsGood db c now ts g absent)
Move-IsGood {db} {ts} (join r now d c u m out fresh e f) g =
    rw (e, f)
      (quiet db g.table r m (set_enqueued now d c u) ts g.coupled
        (set_enqueued-IsSound db g.table r m now d c u out fresh)
        (unfold set_enqueued in ground arith))
Move-IsGood {db} {ts} (start_download r now h st e f) g =
    rw (e, f)
      (quiet db g.table r h.stored (set_started_download now) ts g.coupled
        (set_started_download-IsSound db g.table r h.stored now h.waits h.front)
        (unfold set_started_download in refl))
Move-IsGood {db} {ts} (start_compute r now h st e f) g =
    rw (e, f)
      (quiet db g.table r h.stored (set_started_compute now) ts g.coupled
        (set_started_compute-IsSound db g.table r h.stored now
          (unfold get_current_contribution_step in ground arith))
        (unfold set_started_compute in refl))
Move-IsGood {db} {ts} (start_upload r now h st e f) g =
    rw (e, f)
      (quiet db g.table r h.stored (set_started_upload now) ts g.coupled
        (set_started_upload-IsSound db g.table r h.stored now
          (unfold get_current_contribution_step in ground arith))
        (unfold set_started_upload in refl))
Move-IsGood {db} {ts} (finish_upload r now c hash h st k e f) g =
    let (up, down) = same_variant-started db g.table r h.stored now st in
    rw (e, f)
      (record {
        table = update_where-Inv db r.verifying_key (set_finished_upload now hash) g.table (
            only db g.table r h.stored (IsSound db (set_finished_upload now hash))
              (set_finished_upload-IsSound db g.table r h.stored now hash up));
        coupled =
            update_where-busy db r.verifying_key (set_finished_upload now hash) g.table ts
              (spawned c hash) r h.stored h.waits h.front (ground arith) refl
              (unfold set_finished_upload in refl) (unfold set_finished_upload in ground arith) k
              g.coupled;
      })
Move-IsGood {db} {ts} (kick r now error h st e f) g =
    rw (e, f)
      (quiet db g.table r h.stored (set_kicked now error) ts g.coupled
        (set_kicked-IsSound db g.table r h.stored now error h.waits)
        (unfold set_kicked in sym (step_of_verifying r (g.table.valid r h.stored) h.waits st)))
Move-IsGood {db} {ts} (advance t t' e k e' f) g =
    rw (e', f) (record { table = g.table; coupled = moved g.coupled })
  where
    moved : Coupled db ts → Coupled db (t' ∷ [])
    moved (free e0 none_is) = absurd (cc)
    moved (busy t0 r e0 m h k0) =
        busy t' r refl m h (k0 ∙ ap task_key {x = t0} {y = t} (cc) ∙ sym k)
Move-IsGood {db} {ts} (accept t r now o k m h e f) g =
    rw (e, f)
      (record {
        table = update_where-Inv db r.verifying_key (set_finished_verify now) g.table (
            only db g.table r m (IsSound db (set_finished_verify now))
              (set_finished_verify-IsSound db g.table r m now (ground arith)));
        coupled =
            update_where-free db r.verifying_key (set_finished_verify now) g.table r m h refl
              (unfold set_finished_verify in refl);
      })
Move-IsGood {db} {ts} (reject t r now error o k m h e f) g =
    rw (e, f)
      (record {
        table = update_where-Inv db r.verifying_key (set_kicked now error) g.table (
            only db g.table r m (IsSound db (set_kicked now error))
              (set_kicked-IsSound db g.table r m now error (verifying-queued r h)));
        coupled =
            update_where-free db r.verifying_key (set_kicked now error) g.table r m h refl
              (unfold set_kicked in refl);
      })

pub Moves-IsGood :
    {db : Table} {ts : List Task} {db' : Table} {ts' : List Task}
    → Moves db ts db' ts'
    → IsGood db ts
    → IsGood db' ts'
Moves-IsGood (one m) g = Move-IsGood m g
Moves-IsGood (then ms m) g = Move-IsGood m (Moves-IsGood ms g)
