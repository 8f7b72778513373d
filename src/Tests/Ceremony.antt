-- ===== src/Tests/Ceremony.antt =====
-- A server with one contributor: server/src at concrete inputs.
use aptos_setup_ceremony.Base.{
  ℕ, ◌≡◌, refl, ap, ◌∙◌, sym, Bool, true, false, none, some, arith, List, [], ◌∷◌, ◌+◌, Memᴰ, ◌==◌,
  ==_iff,
}
use aptos_setup_ceremony.Base.Int.{pos}
use aptos_setup_ceremony.Contributor.{Contributor}
use aptos_setup_ceremony.Crypto.Attempt.{done}
use aptos_setup_ceremony.Messages.{Msg}
use aptos_setup_ceremony.Server.Authentication.{Wire}
use aptos_setup_ceremony.Server.Config.{Config, IsBounded}
use aptos_setup_ceremony.Server.Error.{ok}
use aptos_setup_ceremony.Server.State.{FilesStore, State, verified}
use aptos_setup_ceremony.Server.Store.Row.{queued, ContributorRow}
use aptos_setup_ceremony.Server.Queue.{Inv, IsValid}
use aptos_setup_ceremony.Server.Queue.Verifying.{free, busy}
use aptos_setup_ceremony.Server.System.{Event, request, tick, resume}
use aptos_setup_ceremony.Server.System.Safety.{Good, AllTimely}
use aptos_setup_ceremony.Server.System.NoPanic.{AllWhole}
use aptos_setup_ceremony.Server.System.NoPanic.Handlers.{Total}

abbrev pub alice : Contributor
alice = record { name = "Alice"; email = "alice@example.org"; verifying_key = 7 }

-- A store that has every file.
abbrev pub files : FilesStore
files = record {
  St = ℕ;
  get_download_url = λ c s. (ok "https://example.org/d", s + 1);
  get_upload_plan = λ c s. (ok ("https://example.org/u" ∷ []), s + 1);
  finalize_upload = λ c s. (ok tt, s + 1);
  get_test_blob_download_url = λ s. (ok "https://example.org/t", s + 1);
  verification_job = λ c hash previous s. (done tt, s);
}

pub files-Total : Total files
files-Total = record {
  url = λ c s. ground arith;
  plan = λ c s. ground arith;
  finalize = λ c s. ground arith;
  test_url = λ s. ground arith;
  verification = λ c hash previous s. ground arith;
}

-- Every body is a status request of Alice, and every signature is right.
abbrev pub wire : Wire
wire = record {
  verifies = λ key msg signature. true;
  parse_json = λ body. some (record { inner = Msg.get_status alice; signature = body });
}

abbrev pub config : Config
config = record {
  db_path = "db";
  bucket_id = "bucket";
  gcp_project_id = "project";
  stopped = false;
  admin_verifying_key = 1;
  ping_timeout_secs = pos 30;
  download_timeout_secs = pos 600;
  contribute_timeout_secs = pos 600;
  upload_timeout_secs = pos 600;
  port = 8080;
}

pub config-IsBounded : IsBounded config
config-IsBounded = record {
  ping_fits = refl;
  download_fits = refl;
  contribute_fits = refl;
  upload_fits = refl;
}

-- Alice has joined, and her download has not started.
abbrev pub waiting : ContributorRow
waiting = record {
  updated_timestamp = 3;
  verifying_key = 7;
  name = "Alice";
  email = "alice@example.org";
  status = queued;
  test_download_secs = some 1;
  test_compute_secs = some 1;
  test_upload_secs = some 1;
  joined_at = some 3;
  kicked_at = none;
  kicked_error = none;
  started_download_at = none;
  started_compute_at = none;
  started_upload_at = none;
  finished_upload_at = none;
  contribution_hash = none;
  finished_verify_at = none;
}

-- Her contribution is being verified.
abbrev pub checked : ContributorRow
checked = record waiting {
  started_download_at = some 4;
  started_compute_at = some 5;
  started_upload_at = some 6;
  finished_upload_at = some 7;
  contribution_hash = some "abc";
}

pub only_row :
    (P : ContributorRow → Type 0) (r : ContributorRow)
    → P r
    → (s : ContributorRow) → Memᴰ s (r ∷ [])
    → P s
only_row P r p s (Memᴰ.head h) = rw h p
only_row P r p s (Memᴰ.tail m) = elim m [ ]

pub table_of_one : (r : ContributorRow) → IsValid r → Inv (r ∷ [])
table_of_one r valid = record {
  valid = only_row IsValid r valid;
  unique = λ a b m n e.
      ap (λ x. x) (only_row (λ x. x ≡ r) r refl a m ∙ sym (only_row (λ x. x ≡ r) r refl b n));
  distinct = λ a b m n p q d. absurd (
      d (
        ap (λ (x : ContributorRow). x.verifying_key)
          (only_row (λ x. x ≡ r) r refl a m ∙ sym (only_row (λ x. x ≡ r) r refl b n))));
  active = λ a m p w b n q d. absurd (
      d (
        ap (λ (x : ContributorRow). x.verifying_key)
          (only_row (λ x. x ≡ r) r refl b n ∙ sym (only_row (λ x. x ≡ r) r refl a m))));
}

pub waiting-Inv : Inv (waiting ∷ [])
waiting-Inv = table_of_one waiting (record {
  idle = ground arith;
  placed = ground arith;
  explained = ground arith;
  verified = ground arith;
  uploaded = ground arith;
  only_finished = ground arith;
  upload_order = ground arith;
  compute_order = ground arith;
  download_order = ground arith;
})

pub checked-Inv : Inv (checked ∷ [])
checked-Inv = table_of_one checked (record {
  idle = ground arith;
  placed = ground arith;
  explained = ground arith;
  verified = ground arith;
  uploaded = ground arith;
  only_finished = ground arith;
  upload_order = ground arith;
  compute_order = ground arith;
  download_order = ground arith;
})

abbrev pub at_rest : State ℕ
at_rest = record { contributors_db = waiting ∷ []; contribution_files_store = 0; tasks = [] }

abbrev pub at_work : State ℕ
at_work = record {
  contributors_db = checked ∷ [];
  contribution_files_store = 0;
  tasks = verified alice none ∷ [];
}

pub at_rest-Good : Good files wire config at_rest
at_rest-Good = record { table = waiting-Inv; coupled = free refl (only_row (λ r. _) waiting refl) }

pub at_work-Good : Good files wire config at_work
at_work-Good = record {
  table = checked-Inv;
  coupled = busy (verified alice none) checked refl (Memᴰ.head refl) refl refl;
}

-- Alice asks for her status at the time 10; then come a tick and the end of no verification.
abbrev pub events : List Event
events =
    request (record { now = 10; later = 11; test_contributor = alice })
      (record { method = "POST"; path = "/msg"; body = some [] })
    ∷ tick 12 13
    ∷ resume 0 14
    ∷ []

pub events-AllWhole : AllWhole events
events-AllWhole = ((λ b. ground (arith, b)), tt)

pub events-AllTimely : AllTimely files wire config events at_rest
events-AllTimely = (only_row (λ r. _) waiting (λ q. refl), (tt, (tt, tt)))

abbrev pub same_key : ℕ → ℕ → Bool
same_key a b = a == b

pub same_key_iff : (a b : ℕ) → (same_key a b ≡ true → a ≡ b) × (a ≡ b → same_key a b ≡ true)
same_key_iff a b = ((==_iff a b).0, (==_iff a b).1)
