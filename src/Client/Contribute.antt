-- ===== src/Client/Contribute.antt =====
-- `contribute` of client/src/contribute.rs. A loop that polls the server has fuel, one unit a poll,
-- and a result of its own where the fuel ends while the client still polls. A ping loop sends as many
-- times as its parameter says before the work beside it ends.
pub mod Polls
pub mod Fuel
use aptos_setup_ceremony.Base.{
  ℕ, zero, suc, ◌/◌, ◌-◌, ◌||◌, ◌++◌, true, false, String, Option, none, some, List, ltb, leb,
  length, drop, if◌then◌else◌,
}
use aptos_setup_ceremony.Contributor.{Contributor}
use aptos_setup_ceremony.Messages.{Msg}
use aptos_setup_ceremony.Upload.{send_parallel}
use aptos_setup_ceremony.Crypto.Attempt.{
  Attempt, done, failed, panicked, ContributionGenerationFailure,
}
use aptos_setup_ceremony.Stateful.{Action, ◌>>=◌, ◌>>◌, pure, throw, lift, map_err, unwrap}
use aptos_setup_ceremony.Server.Error.{KickedError}
use aptos_setup_ceremony.Server.Responses.{
  StatusResponse, didnt_join, kicked, waiting_in_queue, ready_to_download_previous,
  waiting_for_contribution_with_previous, ready_for_upload, verifying, finished,
}
use aptos_setup_ceremony.Client.World.{
  ClientError, too_slow, no_upload_plan, was_kicked, unexpected, generation, exit, World, sign,
  send, send_and_receive, status_of, url_of, urls_of, ping_loop,
}

pub data QueueOutcome : Type 0 where
  ready_to_download : Option String → QueueOutcome
  already_finished verifying_now : QueueOutcome

-- The cutoffs of the speed test, and the numbers of pings beside each piece of work, which the
-- machine decides. The contributions are their bytes: `generate` makes the bytes of a contribution
-- from those of the previous one, panicking where the code panics, and `blake3` hashes them.
pub record Machine (W : World) : Type 0 where
  pub download_test_cutoff : ℕ
  pub compute_test_cutoff : ℕ
  pub upload_test_cutoff : ℕ
  pub pings_download : ℕ
  pub pings_compute : ℕ
  pub pings_upload : ℕ
  pub generate_test : Action ContributionGenerationFailure W.St (List ℕ)
  pub generate : Option (List ℕ) → Action ContributionGenerationFailure W.St (List ℕ)
  pub blake3 : List ℕ → String

module _ (W : World) (M : Machine W) (me : Contributor) where
  open W use {St}

  -- The status of the contributor, by one request.
  unfoldable pub get_status : Action ClientError St StatusResponse
  unfolding sign send_and_receive
  get_status = send_and_receive W (status_of W) (sign W (Msg.get_status me))

  -- `bytes[..n].copy_from_slice(new)`, for `new` of length n.
  unfoldable pub overwrite : List ℕ → List ℕ → Attempt ClientError (List ℕ)
  overwrite bytes new =
      if leb (length new) (length bytes) then done (new ++ drop (length new) bytes) else panicked

  unfoldable pub too_late : ℕ → ℕ → ℕ → Attempt ClientError (ℕ × (ℕ × ℕ))
  too_late download compute upload =
      if ltb M.download_test_cutoff download
        || ltb M.compute_test_cutoff compute
        || ltb M.upload_test_cutoff upload
      then failed too_slow
      else done (download / 1_000_000_000, (compute / 1_000_000_000, upload / 1_000_000_000))

  -- The time of an action, with its result.
  abbrev pub timed : {A : Type 0} → Action ClientError St A → Action ClientError St (A × ℕ)
  timed act = do start ← W.clock; a ← act; end ← W.clock; pure (a, end - start)

  unfoldable pub test_my_speed : Action ClientError St (ℕ × (ℕ × ℕ))
  unfolding sign send_and_receive overwrite too_late send_parallel
  test_my_speed = do
    download_url ←
        send_and_receive W (url_of W) (sign W (Msg.get_test_contribution_download_link me))
    downloaded ← timed (W.get download_url)
    computed ← timed (map_err generation M.generate_test)
    bytes ← lift (overwrite downloaded.0 computed.0)
    part_urls ← send_and_receive W (urls_of W) (sign W (Msg.get_test_contribution_upload_link me))
    uploaded ← timed (send_parallel bytes W.put_part part_urls)
    lift (too_late downloaded.1 computed.1 uploaded.1)

  module _ (download compute upload : ℕ) where
    -- One round of the loop: its outcome, or `none` after what it does before the next poll.
    unfoldable pub queue_round : StatusResponse → Action ClientError St (Option QueueOutcome)
    unfolding sign send
    queue_round didnt_join = send W (sign W (Msg.join me download compute upload)) >> pure none
    queue_round (kicked e) = send W (sign W (Msg.join me download compute upload)) >> pure none
    queue_round (waiting_in_queue pos) = pure none
    queue_round (ready_to_download_previous url) = pure (some (ready_to_download url))
    queue_round finished = pure (some already_finished)
    queue_round verifying = pure (some verifying_now)
    queue_round (waiting_for_contribution_with_previous url) = W.sleep 25 >> pure none
    queue_round (ready_for_upload urls) = W.sleep 25 >> pure none

    -- The end of a round, before `again`.
    abbrev pub unless_over :
        Action ClientError St (Option QueueOutcome)
        → Option QueueOutcome
        → Action ClientError St (Option QueueOutcome)
    unless_over again (some o) = pure (some o)
    unless_over again none = W.wait >> again

    -- `none`: the fuel ended.
    unfoldable pub join_and_wait_in_queue : ℕ → Action ClientError St (Option QueueOutcome)
    unfolding get_status queue_round
    join_and_wait_in_queue zero = pure none
    join_and_wait_in_queue (suc fuel) = do
      response ← get_status
      outcome ← queue_round response
      unless_over (join_and_wait_in_queue fuel) outcome

  unfoldable pub download_previous : String → Action ClientError St (List ℕ)
  unfolding sign ping_loop
  download_previous url = do
    ping_loop W M.pings_download (sign W (Msg.update_download_progress false me))
    W.get url

  -- The spawned computation panics where it fails.
  unfoldable pub compute_my_contribution : Option (List ℕ) → Action ClientError St (List ℕ)
  unfolding sign ping_loop
  compute_my_contribution maybe_previous_bytes = do
    ping_loop W M.pings_compute (sign W (Msg.update_compute_progress false me))
    map_err generation (unwrap (M.generate maybe_previous_bytes))

  unfoldable pub upload_my_contribution : List ℕ → Action ClientError St String
  unfolding sign get_status ping_loop send_parallel
  upload_my_contribution my_contribution = do
    response ← get_status
    elim response [
      | ready_for_upload part_urls ↦ do
        ping_loop W M.pings_upload (sign W (Msg.update_upload_progress false me ""))
        W.write "mine.contrib" my_contribution
        send_parallel my_contribution W.put_part part_urls
        pure (M.blake3 my_contribution)
      | _ ↦ throw no_upload_plan
    ]

  -- A round of the wait for the verification, before `again`.
  abbrev pub verification_round :
      Action ClientError St (Option (Unit {0}))
      → StatusResponse
      → Action ClientError St (Option (Unit {0}))
  verification_round again (kicked e) = throw (was_kicked e)
  verification_round again finished = pure (some tt)
  verification_round again verifying = W.wait >> (W.wait >> again)
  verification_round again other = throw (unexpected other)

  -- `none`: the fuel ended.
  unfoldable pub wait_for_server_verification : ℕ → Action ClientError St (Option (Unit {0}))
  unfolding get_status
  wait_for_server_verification zero = pure none
  wait_for_server_verification (suc fuel) = do
    response ← get_status
    verification_round (wait_for_server_verification fuel) response

  -- Step 3a, where there is a previous contribution.
  abbrev pub previous_bytes : Option String → Action ClientError St (Option (List ℕ))
  previous_bytes none = pure none
  previous_bytes (some url) = do bytes ← download_previous url; pure (some bytes)

  -- The steps 3a to 3c, from the URL of the previous contribution to the hash that the server got.
  unfoldable pub contribute_in_turn : Option String → Action ClientError St String
  unfolding sign send download_previous compute_my_contribution upload_my_contribution
  contribute_in_turn maybe_url = do
    maybe_previous ← previous_bytes maybe_url
    send W (sign W (Msg.update_download_progress true me))
    my_contribution ← compute_my_contribution maybe_previous
    send W (sign W (Msg.update_compute_progress true me))
    hash ← upload_my_contribution my_contribution
    send W (sign W (Msg.update_upload_progress true me hash))
    pure hash

  -- The ends of the two ways, after the wait.
  abbrev pub leave : Option (Unit {0}) → Action ClientError St (Option (Option String))
  leave none = pure none
  leave (some u) = throw (exit 0)

  abbrev pub finish : String → Option (Unit {0}) → Action ClientError St (Option (Option String))
  finish hash none = pure none
  finish hash (some u) = pure (some (some hash))

  -- What follows the queue.
  unfoldable pub after_queue :
      ℕ → Option QueueOutcome → Action ClientError St (Option (Option String))
  unfolding contribute_in_turn wait_for_server_verification
  after_queue fuel none = pure none
  after_queue fuel (some already_finished) = pure (some none)
  after_queue fuel (some verifying_now) = do
    waited ← wait_for_server_verification fuel
    leave waited
  after_queue fuel (some (ready_to_download maybe_url)) = do
    hash ← contribute_in_turn maybe_url
    waited ← wait_for_server_verification fuel
    finish hash waited

  -- `some (some hash)` is the hash of the finished contribution, `some none` the end of a client that
  -- has contributed already, and `none` the end of the fuel.
  unfoldable pub contribute : ℕ → Action ClientError St (Option (Option String))
  unfolding test_my_speed join_and_wait_in_queue after_queue
  contribute fuel = do
    speeds ← test_my_speed
    outcome ← join_and_wait_in_queue speeds.0 speeds.1.0 speeds.1.1 fuel
    after_queue fuel outcome
