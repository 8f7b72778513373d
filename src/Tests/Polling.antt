-- ===== src/Tests/Polling.antt =====
-- The client at a concrete input: a server with one answer for each request, in order.
use aptos_setup_ceremony.Base.{◌≡◌, refl, true, none, some, List, [], ◌∷◌}
use aptos_setup_ceremony.Messages.{Msg}
use aptos_setup_ceremony.Crypto.Attempt.{done}
use aptos_setup_ceremony.Server.Responses.{
  Response, json_ok, json_status, json_url, json_urls, didnt_join, waiting_in_queue,
  ready_to_download_previous, ready_for_upload, verifying, finished,
}
use aptos_setup_ceremony.Upload.{send_parallel, upload_parallel, parts, slice}
use aptos_setup_ceremony.Server.Dispatch.{HttpResponse, success}
use aptos_setup_ceremony.Client.World.{World, sign, send, send_inner, send_and_receive, ping_loop}
use aptos_setup_ceremony.Client.Contribute.{
  ready_to_download, Machine, get_status, queue_round, join_and_wait_in_queue, test_my_speed,
  overwrite, too_late, download_previous, compute_my_contribution, upload_my_contribution,
  wait_for_server_verification, contribute_in_turn, after_queue, contribute,
}
use aptos_setup_ceremony.Client.Contribute.Polls.{join_and_wait_in_queue-some, contribute-finished}
use aptos_setup_ceremony.Tests.Ceremony.{alice}

-- What is answered, the next answer first. Any request takes the next one.
abbrev answer : List Response → HttpResponse × List Response
answer [] = (success json_ok, [])
answer (r ∷ rest) = (success r, rest)

abbrev scripted : World
scripted = record {
  St = List Response;
  post = λ m s. (done (answer s).0, (answer s).1);
  get = λ url s. (done (1 ∷ 2 ∷ 3 ∷ []), s);
  put_part = λ url bytes s. (done tt, s);
  write = λ path bytes s. (done tt, s);
  wait = λ s. (done tt, s);
  sleep = λ secs s. (done tt, s);
  clock = λ s. (done 0, s);
  signature = λ m. [];
}

abbrev machine : Machine scripted
machine = record {
  download_test_cutoff = 10;
  compute_test_cutoff = 10;
  upload_test_cutoff = 10;
  pings_download = 1;
  pings_compute = 0;
  pings_upload = 0;
  generate_test = λ s. (done (7 ∷ []), s);
  generate = λ previous s. (done (8 ∷ 9 ∷ []), s);
  blake3 = λ bytes. "hash";
}

abbrev queueing : List Response
queueing =
    json_status didnt_join
    ∷ json_ok
    ∷ json_status (waiting_in_queue 1)
    ∷ json_status (ready_to_download_previous none)
    ∷ []

queue_run :
    join_and_wait_in_queue scripted machine alice 1 2 3 5 queueing
    ≡ (done (some (ready_to_download none)), [])
unfolding join_and_wait_in_queue get_status queue_round sign send send_inner send_and_receive
queue_run = refl

join_and_wait_in_queue-some_example :
    (t : List Response) × (get_status scripted machine alice t
      ≡ (done (ready_to_download_previous none), []))
join_and_wait_in_queue-some_example =
    join_and_wait_in_queue-some scripted machine alice 1 2 3 5 (ready_to_download none) queueing []
      queue_run

abbrev session : List Response
session =
    json_url "download"
    ∷ json_urls ("upload" ∷ [])
    ∷ json_status (ready_to_download_previous none)
    ∷ json_ok
    ∷ json_ok
    ∷ json_status (ready_for_upload ("upload" ∷ []))
    ∷ json_ok
    ∷ json_status verifying
    ∷ json_status finished
    ∷ []

session_run : contribute scripted machine alice 3 session ≡ (done (some (some "hash")), [])
unfolding contribute after_queue contribute_in_turn wait_for_server_verification
    join_and_wait_in_queue get_status queue_round sign send send_inner send_and_receive
    test_my_speed overwrite too_late ping_loop download_previous compute_my_contribution
    upload_my_contribution send_parallel upload_parallel parts slice
session_run = refl

contribute-finished_example :
    (t₁ t₂ t₃ : List Response) × (send scripted
        (sign scripted (Msg.update_upload_progress true alice "hash"))
        t₁
      ≡ (done tt, t₂))
    × (get_status scripted machine alice t₃ ≡ (done finished, []))
contribute-finished_example =
    contribute-finished scripted machine alice 3 "hash" session [] session_run
