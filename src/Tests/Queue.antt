-- ===== src/Tests/Queue.antt =====
-- The server's theorems at concrete inputs.
use aptos_setup_ceremony.Base.{
  ℕ, ◌≡◌, refl, true, false, none, some, [], ◌∷◌, Memᴰ, ◌⊎◌, ◌≢◌, arith,
}
use aptos_setup_ceremony.Messages.{Msg, AuthenticatedMsg}
use aptos_setup_ceremony.Server.Error.{
  no_text, ok, err, fail, from_error, contributor_not_found, already_in_queue, already_finished,
  bad_request, already_registered, unauthorized, status_code, ErrorWithCode,
}
use aptos_setup_ceremony.Server.Authentication.{verify_correctly_authenticated}
use aptos_setup_ceremony.Server.Authentication.Laws.{verify_correctly_authenticated-signer, signer}
use aptos_setup_ceremony.Server.Dispatch.{request_handler}
use aptos_setup_ceremony.Base.Int.{ltb_ℤ}
use aptos_setup_ceremony.Server.Config.{ping_timeout}
use aptos_setup_ceremony.Server.Handlers.{elapsed, handle_tick, handle_join}
use aptos_setup_ceremony.Server.Store.OrderBy.{order_by, order_insert}
use aptos_setup_ceremony.Server.Store.Row.{
  didnt_join_queue, queued, kicked, finished, ContributorRow, new, get_current_contribution_step,
}
use aptos_setup_ceremony.Server.Store.Db.{
  kick_current, sql_lt, find_key, get_current, pos_of, register,
}
use aptos_setup_ceremony.Server.Queue.Verifying.{is_verifying}
use aptos_setup_ceremony.Server.Queue.Joins.{Joined, handle_join-back, register-find}
use aptos_setup_ceremony.Server.Queue.Ticks.{ticked, replaced, handle_tick-ticked}
use aptos_setup_ceremony.Server.Queue.Moves.{IsHead}
use aptos_setup_ceremony.Server.Queue.Positions.{pos_of_unique, get_current-pos_of}
use aptos_setup_ceremony.Server.State.{State}
use aptos_setup_ceremony.Server.Queue.{Inv}
use aptos_setup_ceremony.Server.System.{tick, resume, step, run}
use aptos_setup_ceremony.Server.System.Safety.{Good, run-Good, run-one_active}
use aptos_setup_ceremony.Server.System.Restart.{run-IsLost}
use aptos_setup_ceremony.Server.System.Ends.{verdict, verified-verdict}
use aptos_setup_ceremony.Server.System.Requests.{request-Moves}
use aptos_setup_ceremony.Server.System.Refines.{Leads}
use aptos_setup_ceremony.Tests.Ceremony.{
  alice, files, wire, config, waiting, checked, at_rest, at_work, events, waiting-Inv, checked-Inv,
  only_row, table_of_one, at_rest-Good, at_work-Good, events-AllTimely, config-IsBounded,
}

run-Good_example : Good files wire config (run files wire config events at_rest).1
run-Good_example = run-Good files wire config events at_rest events-AllTimely at_rest-Good

still_there : Memᴰ checked (run files wire config (tick 12 13 ∷ []) at_work).1.contributors_db
unfolding run step handle_tick get_current order_by order_insert get_current_contribution_step ltb_ℤ
    ping_timeout elapsed kick_current
still_there = Memᴰ.head refl

run-one_active_example : checked ≡ checked
run-one_active_example =
    run-one_active files wire config (tick 12 13 ∷ []) at_work (tt, tt) at_work-Good checked checked
      still_there still_there refl refl refl refl

verified-verdict_example :
    (r : ContributorRow) × (get_current at_work.contributors_db ≡ some r)
    × (r.verifying_key ≡ alice.verifying_key)
    × (is_verifying r ≡ true)
    × (step files wire config (resume 0 9) at_work ≡ (
      ok tt,
      record at_work {
        contributors_db = verdict files wire config 9 r none at_work.contributors_db;
        tasks = [];
      },
    ))
verified-verdict_example = verified-verdict files wire config at_work at_work-Good 9 alice none refl

request-Moves_example :
    Leads at_rest
      (request_handler files wire config
        (record { now = 10; later = 11; test_contributor = alice })
        (record { method = "POST"; path = "/msg"; body = some [] })
        at_rest).1
request-Moves_example =
    request-Moves files wire config at_rest waiting-Inv
      (record { now = 10; later = 11; test_contributor = alice })
      (record { method = "POST"; path = "/msg"; body = some [] }) events-AllTimely.0

handle_tick-ticked_example :
    let late = handle_tick files config 90_000_000_000 13 at_rest in
    (((r : ContributorRow) → Memᴰ r (waiting ∷ []) → r.status ≢ queued) × (late ≡ (ok tt, at_rest)))
    ⊎ ((r : ContributorRow) × IsHead (waiting ∷ []) r
        × (late ≡ (
          ok tt,
          record at_rest {
            contributors_db =
                replaced r (ticked config 90_000_000_000 13 r) at_rest.contributors_db;
          },
        )))
handle_tick-ticked_example =
    handle_tick-ticked files config 90_000_000_000 13 at_rest waiting-Inv config-IsBounded

-- Alice has been kicked, and joins again.
abbrev out_row : ContributorRow
out_row = record waiting {
  status = kicked;
  kicked_at = some 8;
  kicked_error = some no_text;
  started_download_at = some 4;
}

out_row-Inv : Inv (out_row ∷ [])
out_row-Inv = table_of_one out_row (record {
  idle = ground arith;
  placed = ground arith;
  explained = ground arith;
  verified = ground arith;
  uploaded = ground arith;
  only_finished = ground arith;
  upload_order = ground arith;
  compute_order = ground arith;
  download_order = ground arith;
})

abbrev at_out : State ℕ
at_out = record at_rest { contributors_db = out_row ∷ [] }

handle_join-back_example :
    let r = handle_join files alice 10 1 1 1 at_out in
    ((find_key 7 at_out.contributors_db ≡ none)
      × (r ≡ (err (from_error contributor_not_found), at_out)))
    ⊎ ((row : ContributorRow) × (find_key 7 at_out.contributors_db ≡ some row)
        × ((((row.status ≡ didnt_join_queue) ⊎ (row.status ≡ kicked))
              × (r.0 ≡ ok tt)
              × Joined alice at_out r.1)
            ⊎ ((row.status ≡ queued) × (r ≡ (fail already_in_queue bad_request, at_out)))
            ⊎ ((row.status ≡ finished) × (r ≡ (fail already_finished bad_request, at_out)))))
handle_join-back_example = handle_join-back files at_out out_row-Inv alice 10 1 1 1 (
    only_row (λ r. r.status ≡ queued → sql_lt r.joined_at (some 10) ≡ true) out_row
      (λ q. ground (arith, q)))

pos_of-unique_example : waiting ≡ waiting
pos_of-unique_example =
    pos_of_unique (waiting ∷ []) waiting-Inv waiting waiting (Memᴰ.head refl) (Memᴰ.head refl) refl
      refl refl

get_current-pos_of_example :
    (get_current (waiting ∷ []) ≡ some waiting
      → (waiting.status ≡ queued) × (pos_of (waiting ∷ []) waiting ≡ 0))
    × (waiting.status ≡ queued
        → pos_of (waiting ∷ []) waiting ≡ 0
        → get_current (waiting ∷ []) ≡ some waiting)
get_current-pos_of_example = get_current-pos_of (waiting ∷ []) waiting-Inv waiting (Memᴰ.head refl)

registered : register 5 alice [] ≡ ok (new 5 alice ∷ [])
unfolding register find_key
registered = refl

register-find_example :
    (find_key alice.verifying_key (new 5 alice ∷ []) ≡ some (new 5 alice))
    × (register 6 alice (new 5 alice ∷ []) ≡ err (from_error already_registered))
register-find_example = register-find 5 6 alice alice [] (new 5 alice ∷ []) registered refl

abbrev join_request : AuthenticatedMsg
join_request = record { inner = Msg.join alice 1 1 1; signature = [] }

verify_correctly_authenticated-signer_example :
    ((wire.verifies (signer config join_request.inner) join_request.inner join_request.signature
        ≡ true)
      × (verify_correctly_authenticated wire join_request config ≡ ok tt))
    ⊎ ((wire.verifies (signer config join_request.inner) join_request.inner join_request.signature
          ≡ false)
        × (x : ErrorWithCode) × (verify_correctly_authenticated wire join_request config ≡ err x)
        × (status_code x ≡ unauthorized))
verify_correctly_authenticated-signer_example =
    verify_correctly_authenticated-signer wire config join_request

-- The process has been restarted while her contribution was being verified.
abbrev restarted : State ℕ
restarted = record { contributors_db = checked ∷ []; contribution_files_store = 0; tasks = [] }

run-IsLost_example :
    let s' = (run files wire config events restarted).1 in
    ((r : ContributorRow) × IsHead s'.contributors_db r
      × (r.verifying_key ≡ 7)
      × (is_verifying r ≡ true))
    × (s'.tasks ≡ [])
run-IsLost_example =
    run-IsLost files wire config 7 events restarted
      (
        only_row (λ r. r.status ≡ queued → sql_lt r.joined_at (some 10) ≡ true) checked (λ q. refl),
        (tt, (tt, tt)),
      )
      (record {
        table = checked-Inv;
        row = checked;
        stored = Memᴰ.head refl;
        same_key = refl;
        verifies = refl;
        idle = refl;
      })
