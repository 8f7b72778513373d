-- ===== src/Tests/Uploads.antt =====
-- The files of the contributions and their verification at concrete inputs.
use aptos_setup_ceremony.Base.{
  ℕ, zero, suc, ◌<◌, ◌≡◌, ◌≢◌, refl, sym, ap, ◌∙◌, String, none, some, List, [], ◌∷◌, length,
  replicate, length-replicate, Memᴰ, Memᴰ-cons, inl, inr, arith,
}
use aptos_setup_ceremony.Crypto.Attempt.{Attempt, done, ContributionGenerationFailure}
use aptos_setup_ceremony.Crypto.Contribution.{Contribution, generate}
use aptos_setup_ceremony.Crypto.PowersOfTau
use aptos_setup_ceremony.Upload.{send_parallel}
use aptos_setup_ceremony.Server.Store.ContributionFiles.{
  ObjectName, object_name, part_object_name, gather, get_upload_plan, finalize_upload,
  download_contribution,
}
use aptos_setup_ceremony.Server.Store.ContributionFiles.Bucket.{Removed}
use aptos_setup_ceremony.Server.Store.ContributionFiles.Plan.{
  parts_of, AllOpen, get_upload_plan-Removed,
}
use aptos_setup_ceremony.Server.Store.ContributionFiles.Finalize.{finalize_upload-Written}
use aptos_setup_ceremony.Server.Store.ContributionFiles.RoundTrip.{
  IsKeyEncoding, download_contribution-finalize_upload,
}
use aptos_setup_ceremony.Server.VerificationJob.{Encodings, verification_job}
use aptos_setup_ceremony.Server.VerificationJob.Accepts.{verification_job-generate}
use aptos_setup_ceremony.Tests.Ceremony.{alice}
use aptos_setup_ceremony.Tests.Chain.{
  same_hashes, same_hashes_iff, powers_inner, four, IsPowers, IsSecret, hash, IsPowers-IsComplete,
  contribution_one,
}
use aptos_setup_ceremony.Tests.Cloud.{
  Files, cloud, store, objects, Opens, put_part, cloud-IsBucket, put_part-IsUpload,
}
use aptos_setup_ceremony.Tests.Ternary.{Trit, unit, minus, ternary}

-- Eight files of one byte, and nothing else.
abbrev pub eight_parts : Files
eight_parts (ObjectName.part_of n i) = some (i ∷ [])
eight_parts _ = none

abbrev one_each : List (List ℕ)
one_each =
    (0 ∷ []) ∷ (1 ∷ []) ∷ (2 ∷ []) ∷ (3 ∷ []) ∷ (4 ∷ []) ∷ (5 ∷ []) ∷ (6 ∷ []) ∷ (7 ∷ []) ∷ []

get_upload_plan-Removed_example :
    (us : List String) × (s' : Files) × (get_upload_plan cloud store alice eight_parts
      ≡ (done us, s'))
    × AllOpen Opens us (parts_of cloud alice)
    × Removed cloud objects (object_name cloud alice ∷ parts_of cloud alice) eight_parts s'
get_upload_plan-Removed_example =
    get_upload_plan-Removed cloud objects store Opens alice cloud-IsBucket eight_parts

finalize_upload-Written_example :
    (s' : Files) × (finalize_upload cloud store alice eight_parts ≡ (done tt, s'))
    × (objects s' (object_name cloud alice) ≡ some (gather cloud store one_each))
    × ((n : ObjectName) → Memᴰ n (parts_of cloud alice) → objects s' n ≡ none)
    × ((n : ObjectName)
        → n ≢ object_name cloud alice
        → (Memᴰ n (parts_of cloud alice) → ⊥)
        → objects s' n ≡ objects eight_parts n)
unfolding part_object_name
finalize_upload-Written_example =
    finalize_upload-Written cloud objects store Opens alice cloud-IsBucket one_each eight_parts
      (refl, (refl, (refl, (refl, (refl, (refl, (refl, (refl, tt))))))))

download_contribution-finalize_upload_example :
    (us : List String) × (s₁ s₂ s₃ : Files) × (get_upload_plan cloud store alice eight_parts
      ≡ (done us, s₁))
    × (send_parallel (9 ∷ 8 ∷ 7 ∷ []) put_part us s₁ ≡ (done tt, s₂))
    × (finalize_upload cloud store alice s₂ ≡ (done tt, s₃))
    × (download_contribution cloud store alice s₃ ≡ (done (9 ∷ 8 ∷ 7 ∷ []), s₃))
    × ((n : ObjectName)
        → n ≢ object_name cloud alice
        → (Memᴰ n (parts_of cloud alice) → ⊥)
        → objects s₃ n ≡ objects eight_parts n)
download_contribution-finalize_upload_example =
    download_contribution-finalize_upload cloud objects store Opens alice cloud-IsBucket put_part
      put_part-IsUpload (9 ∷ 8 ∷ 7 ∷ []) eight_parts

ones_small : (k b : ℕ) → Memᴰ b (replicate k 1) → b < 256
ones_small zero b m = elim m [ ]
ones_small (suc k) b m = elim (Memᴰ-cons m) [ inl e ↦ omega arith | inr t ↦ ones_small k b t ]

pub cloud-IsKeyEncoding : IsKeyEncoding cloud.as_bytes
cloud-IsKeyEncoding = record {
  small = ones_small;
  injective = λ k l e. sym (length-replicate k 1) ∙ ap length e ∙ length-replicate l 1;
}

-- The bytes stand for the one contribution there is.
abbrev pub encodings : Encodings ternary powers_inner
encodings = record {
  hash = hash;
  eq_hashes = same_hashes;
  blake3 = λ bytes. "hash";
  to_bytes = λ x. 5 ∷ [];
  from_bytes = λ bytes. some contribution_one;
  thread_rng = unit;
}

abbrev made_of :
    Attempt ContributionGenerationFailure (Contribution ternary powers_inner × Trit)
    → Contribution ternary powers_inner
made_of (done r) = r.0
made_of _ = contribution_one

made_one :
    (x : Contribution ternary powers_inner) (rng' : Trit)
    → generate ternary powers_inner hash same_hashes minus none alice four ≡ done (x, rng')
    → some contribution_one ≡ some x
unfolding generate PowersOfTau.generate PowersOfTau.first_contribution
made_one x rng' e = ap some (ap made_of e)

verification_job-generate_example :
    (new : Contribution ternary powers_inner) × (rng' : Trit) × (us : List String) × (s₁ s₂
      s₃ : Files)
    × (generate ternary powers_inner hash same_hashes minus none alice four ≡ done (new, rng'))
    × (get_upload_plan cloud store alice eight_parts ≡ (done us, s₁))
    × (send_parallel (5 ∷ []) put_part us s₁ ≡ (done tt, s₂))
    × (finalize_upload cloud store alice s₂ ≡ (done tt, s₃))
    × (verification_job ternary powers_inner encodings four cloud store alice "hash" none s₃
        ≡ (done tt, s₃))
unfolding PowersOfTau.first_contribution
verification_job-generate_example =
    verification_job-generate ternary powers_inner encodings four cloud store objects Opens alice
      cloud-IsBucket cloud-IsKeyEncoding put_part put_part-IsUpload same_hashes_iff
      (PowersOfTau.first_contribution ternary unit four) IsPowers IsSecret IsPowers-IsComplete minus
      none none eight_parts made_one IsPowers-IsComplete.first_valid refl tt
