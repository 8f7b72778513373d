-- ===== src/Tests/Turn.antt =====
-- Alice's turn on a server where she is alone, over a bucket in memory.
use aptos_setup_ceremony.Base.{
  ◌+◌, ◌≡◌, refl, String, true, false, Option, none, some, List, [], ◌∷◌,
}
use aptos_setup_ceremony.Crypto.Attempt.{done}
use aptos_setup_ceremony.Crypto.Contribution.{verify}
use aptos_setup_ceremony.Crypto.PowersOfTau
use aptos_setup_ceremony.Upload.{send_parallel}
use aptos_setup_ceremony.Server.Error.{ok}
use aptos_setup_ceremony.Server.Responses.{StatusResponse}
use aptos_setup_ceremony.Server.State.{FilesStore, State}
use aptos_setup_ceremony.Server.Store.Row.{
  ContributorStatus, ContributorRow, get_current_contribution_step,
}
use aptos_setup_ceremony.Server.Store.Db.{
  find_key, pos_of, is_finished, get_most_recent_finished_contributor,
}
use aptos_setup_ceremony.Server.Store.OrderBy.{order_by}
use aptos_setup_ceremony.Server.Handlers.{
  handle_get_status, handle_update_download_progress, handle_update_compute_progress,
  handle_update_upload_progress,
}
use aptos_setup_ceremony.Server.Queue.Verifying.{IsGood, free}
use aptos_setup_ceremony.Server.System.{resume, step}
use aptos_setup_ceremony.Server.System.Turn.{AtHead}
use aptos_setup_ceremony.Server.System.Turn.Steps.{Holds}
use aptos_setup_ceremony.Server.VerificationJob.{files_store}
use aptos_setup_ceremony.Server.VerificationJob.Turn.{files_turn-finishes}
use aptos_setup_ceremony.Tests.Ceremony.{alice, wire, config, waiting, waiting-Inv, only_row}
use aptos_setup_ceremony.Tests.Chain.{powers_inner, four, hash, same_hashes, contribution_one}
use aptos_setup_ceremony.Tests.Cloud.{
  Files, cloud, store, objects, named, Opens, put_part, cloud-IsBucket, put_part-IsUpload,
}
use aptos_setup_ceremony.Tests.Uploads.{eight_parts, encodings, cloud-IsKeyEncoding}
use aptos_setup_ceremony.Tests.Ternary.{unit, ternary}

abbrev on_bucket : FilesStore
on_bucket = files_store ternary powers_inner encodings four cloud store

-- Parts of an earlier upload of hers are still there.
abbrev begins : State Files
begins = record {
  contributors_db = waiting ∷ [];
  contribution_files_store = eight_parts;
  tasks = [];
}

begins-IsGood : IsGood (waiting ∷ []) []
begins-IsGood = record { table = waiting-Inv; coupled = free refl (only_row (λ r. _) waiting refl) }

waiting-AtHead : AtHead (waiting ∷ []) alice waiting
unfolding find_key pos_of
waiting-AtHead = record {
  found = refl;
  waits = refl;
  first = refl;
  unfinished = only_row (λ r. r.verifying_key ≡ 7 → is_finished r ≡ false) waiting (λ e. refl);
}

begins-Holds : Holds none alice waiting begins
unfolding get_most_recent_finished_contributor order_by
begins-Holds = record { head = waiting-AtHead; latest = refl; idle = refl }

one_accepted :
    verify ternary powers_inner hash same_hashes contribution_one unit none four ≡ done tt
unfolding verify PowersOfTau.verify PowersOfTau.first_contribution
one_accepted = refl

files_turn-finishes_example :
    (u : Option String) × (us : List String) × (s₁ s₂ s₃ s₄ s₅ s₆ s₇ s₈ : State Files) × (t : Files)
    × (handle_get_status on_bucket alice 20 21 begins
        ≡ (ok (StatusResponse.ready_to_download_previous u), s₁))
    × (handle_update_download_progress on_bucket true alice 22 s₁ ≡ (ok tt, s₂))
    × (handle_update_compute_progress on_bucket true alice 23 s₂ ≡ (ok tt, s₃))
    × (handle_get_status on_bucket alice 24 25 s₃ ≡ (ok (StatusResponse.ready_for_upload us), s₄))
    × (send_parallel (5 ∷ 6 ∷ []) put_part us s₄.contribution_files_store ≡ (done tt, t))
    × (handle_update_upload_progress on_bucket true "hash" alice 26
          (record s₄ { contribution_files_store = t })
        ≡ (ok tt, s₅))
    × (step on_bucket wire config (resume 0 27) s₅ ≡ (ok tt, s₆))
    × (step on_bucket wire config (resume 0 28) s₆ ≡ (ok tt, s₇))
    × (step on_bucket wire config (resume 0 29) s₇ ≡ (ok tt, s₈))
    × ((r' : ContributorRow) × (find_key 7 s₈.contributors_db ≡ some r')
        × (r'.status ≡ ContributorStatus.finished))
    × (s₈.tasks ≡ [])
unfolding get_current_contribution_step
files_turn-finishes_example =
    files_turn-finishes ternary powers_inner encodings four cloud store objects Opens alice
      cloud-IsBucket cloud-IsKeyEncoding put_part put_part-IsUpload none none (5 ∷ 6 ∷ [])
      contribution_one (λ n s. (named n, refl)) refl one_accepted wire config (λ n. 20 + n) waiting
      begins begins-IsGood begins-Holds tt refl
