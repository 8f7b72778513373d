-- ===== src/Crypto/Contribution/Laws.antt =====
-- The chain of hashes that accepted contributions form: common/src/contribution.rs.
use aptos_setup_ceremony.Base.{
  ℕ, ◌≡◌, refl, ap, ◌∙◌, Bool, true, Option, none, some, List, [], ◌∷◌, ◌++◌, arith,
}
use aptos_setup_ceremony.Contributor.{Contributor}
use aptos_setup_ceremony.Crypto.Attempt.{done}
use aptos_setup_ceremony.Crypto.Curve.{Curve}
use aptos_setup_ceremony.Crypto.MultipairingEquation.{MultipairingEquation, equals_zero}
use aptos_setup_ceremony.Crypto.Contribution.{
  ContributionInner, Contribution, build_previous_hashes, check_zero, generate, verify,
}

module _ (C : Curve) (I : ContributionInner C) (hash : Contribution C I → ℕ)
    (eq_hashes : List (Contributor × ℕ) → List (Contributor × ℕ) → Bool)
    (eq_hashes_iff : (xs ys : List (Contributor × ℕ))
      → (eq_hashes xs ys ≡ true → xs ≡ ys) × (xs ≡ ys → eq_hashes xs ys ≡ true))
    (params : I.Params) where
  -- A chain of contributions, the newest first, each accepted with the one before it.
  abbrev pub Accepted : Contribution C I → List (Contribution C I) → Type 0
  Accepted c [] =
      (c.previous_hashes ≡ [])
      × (rng : C.Rng) × (verify C I hash eq_hashes c rng none params ≡ done tt)
  Accepted c (previous ∷ rest) =
      ((rng : C.Rng) × (verify C I hash eq_hashes c rng (some previous) params ≡ done tt))
      × Accepted previous rest

  -- What a chain's hashes are to be: each contributor with the hash of the contribution, the oldest first.
  abbrev pub history : List (Contribution C I) → List (Contributor × ℕ)
  history [] = []
  history (c ∷ rest) = history rest ++ (c.contributor, hash c) ∷ []

  verify-hashes :
      (c previous : Contribution C I) (rng : C.Rng)
      → verify C I hash eq_hashes c rng (some previous) params ≡ done tt
      → c.previous_hashes ≡ build_previous_hashes C I hash eq_hashes previous
  unfolding verify
  verify-hashes c previous rng h =
      (eq_hashes_iff c.previous_hashes (build_previous_hashes C I hash eq_hashes previous)).0
        (ground arith)

  -- The last of a chain of accepted contributions, whose first one carries no hashes, carries the
  -- contributors and hashes of all the earlier ones, in their order.
  pub Accepted-history :
      (c : Contribution C I) (rest : List (Contribution C I))
      → Accepted c rest
      → c.previous_hashes ≡ history rest
  unfolding build_previous_hashes
  Accepted-history c [] (none_before, rng, h) = none_before
  Accepted-history c (previous ∷ rest) ((rng, h), chain) =
      verify-hashes c previous rng h
      ∙ ap (λ hs. hs ++ (previous.contributor, hash previous) ∷ [])
          (Accepted-history previous rest chain)

  -- The contract of an inner contribution: what it makes of a valid one is valid, accepted, and zero,
  -- unless it has drawn a secret that the verification refuses.
  pub record IsComplete (first : I.Inner) (IsValid : I.Inner → Type 0)
      (IsSecret : C.Rng → I.Inner → Type 0) : Type 1 where
    pub first_made : (E : Type 0) → I.first_contribution E params ≡ done first
    pub first_valid : IsValid first
    pub made :
        (rng : C.Rng) (previous : I.Inner)
        → IsValid previous
        → IsSecret rng previous
        → (new : I.Inner) × (secrets : I.Secrets) × (rng' : C.Rng) × (I.generate rng previous params
            ≡ done ((new, secrets), rng'))
          × IsValid new
          × ((v : C.Rng)
              → (r : MultipairingEquation C × C.Rng) × (I.verify new v previous params ≡ done r)
                × (equals_zero C r.0 ≡ done tt))

  check_zero-done :
      (equation : MultipairingEquation C)
      → equals_zero C equation ≡ done tt
      → check_zero C I equation ≡ done tt
  check_zero-done equation h = rw (check_zero, h) refl

  -- The inner contribution that a new one builds on, where the first one is `first`.
  abbrev pub previous_inner : I.Inner → Option (Contribution C I) → I.Inner
  previous_inner first none = first
  previous_inner first (some previous) = previous.inner

  -- Over inner contributions that keep the contract, the contribution that a contributor makes with an
  -- accepted secret, on a valid previous one or as the first, is valid and passes the verification with it, for every
  -- random number generator of the verifier, and carries the contributor's name.
  pub verify-generate_contribution :
      (first : I.Inner) (IsValid : I.Inner → Type 0) (IsSecret : C.Rng → I.Inner → Type 0)
      (k : IsComplete first IsValid IsSecret) (rng : C.Rng)
      (maybe_previous : Option (Contribution C I)) (c : Contributor)
      → IsValid (previous_inner first maybe_previous)
      → IsSecret rng (previous_inner first maybe_previous)
      → (new : Contribution C I) × (rng' : C.Rng) × (generate C I hash eq_hashes rng maybe_previous
            c params
          ≡ done (new, rng'))
        × IsValid new.inner
        × (new.contributor ≡ c)
        × ((v : C.Rng) → verify C I hash eq_hashes new v maybe_previous params ≡ done tt)
  unfolding generate verify
  verify-generate_contribution first IsValid IsSecret k rng none c v w =
      let (new, secrets, rng', made, valid, passes) = k.made rng first v w in
      (
        record { inner = new; contributor = c; previous_hashes = [] },
        rng',
        rw (k.first_made _, made) refl,
        valid,
        refl,
        λ u.
            let (r, accepted, z) = passes u in
            rw (k.first_made _, accepted) (check_zero-done r.0 z),
      )
  verify-generate_contribution first IsValid IsSecret k rng (some previous) c v w =
      let (new, secrets, rng', made, valid, passes) = k.made rng previous.inner v w in
      let hashes = build_previous_hashes C I hash eq_hashes previous in
      (
        record { inner = new; contributor = c; previous_hashes = hashes },
        rng',
        rw made refl,
        valid,
        refl,
        λ u.
            let (r, accepted, z) = passes u in
            rw ((eq_hashes_iff hashes hashes).1 refl, accepted) (check_zero-done r.0 z),
      )
