-- ===== src/Server/Queue/Positions.antt =====
-- The positions that contributors are told: `select_with_pos` of
-- server/src/store/contributors_db/mod.rs.
use aptos_setup_ceremony.Base.{
  ◌+◌, ◌≤◌, ◌≡◌, refl, ap, ◌∙◌, inl, inr, Bool, true, false, ◌&&◌, ◌==◌, ==_iff, Bool-cases, some,
  Memᴰ, arith, List, [], ◌∷◌, count, Option-cases,
}
use aptos_setup_ceremony.Server.Store.Row.{queued, ContributorRow, Table}
use aptos_setup_ceremony.Server.Store.Db.{is_queued, sql_lt, pos_of, get_current}
use aptos_setup_ceremony.Server.Queue.{Earlier, IsFront, Inv}
use aptos_setup_ceremony.Server.Queue.Reads.{pos_of-IsFront, get_current-some, get_current-none}
use aptos_setup_ceremony.Server.Queue.Verifying.{front_unique}

count_none {ℓ} :
    {A : Type ℓ} (p : A → Bool) (xs : List A) → ((a : A) → Memᴰ a xs → p a ≡ false) → count p xs ≡ 0
count_none p [] none_is = refl
count_none p (x ∷ xs) none_is =
    ground (arith, none_is x (Memᴰ.head refl), count_none p xs (λ a m. none_is a (Memᴰ.tail m)))

module _ {ℓ} {A : Type ℓ} (p q : A → Bool) (below : (a : A) → p a ≡ true → q a ≡ true) where
  count_le : (xs : List A) → count p xs ≤ count q xs
  count_le [] = omega arith
  count_le (x ∷ xs) = ground (arith, below x, count_le xs)

  -- A test that passes more, and one element more, counts more.
  count_lt :
      (xs : List A) {a : A} → Memᴰ a xs → p a ≡ false → q a ≡ true → 1 + count p xs ≤ count q xs
  count_lt [] m no_it yes_it = elim m [ ]
  count_lt (x ∷ xs) (Memᴰ.head h) no_it yes_it = ground (arith, ap p h, ap q h, count_le xs)
  count_lt (x ∷ xs) (Memᴰ.tail m) no_it yes_it = ground (arith, below x, count_lt xs m no_it yes_it)

-- Who joined earlier has the smaller position.
pos_of-lt :
    (db : Table) (r s : ContributorRow)
    → Memᴰ r db
    → r.status ≡ queued
    → s.status ≡ queued
    → Earlier r s
    → 1 + pos_of db r ≤ pos_of db s
unfolding pos_of
pos_of-lt db r s m q p e =
    let less =
      count_lt (λ c. is_queued c && sql_lt c.joined_at r.joined_at)
        (λ c. is_queued c && sql_lt c.joined_at s.joined_at) (λ c h. ground (arith, h, e)) db m
        (ground arith) (ground (arith, q, e)) in
    ground (arith, less, q, p)

module _ (db : Table) (v : Inv db) where
  -- In a table with the invariant two queued rows that are told one position are the same row.
  pub pos_of_unique :
      (r s : ContributorRow)
      → Memᴰ r db
      → Memᴰ s db
      → r.status ≡ queued
      → s.status ≡ queued
      → pos_of db r ≡ pos_of db s
      → r ≡ s
  pos_of_unique r s m n q p e = elim (Bool-cases (r.verifying_key == s.verifying_key)) [
    | inl same ↦ v.unique r s m n ((==_iff _ _).0 same)
    | inr apart ↦ elim (v.distinct r s m n q p (ground arith)) [
      | inl h ↦ let less = pos_of-lt db r s m q p h in absurd (omega arith)
      | inr h ↦ let less = pos_of-lt db s r n p q h in absurd (omega arith)
    ]
  ]

  -- The row at the front has the position 0.
  IsFront-pos_of :
      (r : ContributorRow) → Memᴰ r db → r.status ≡ queued → IsFront db r → pos_of db r ≡ 0
  unfolding pos_of
  IsFront-pos_of r m q front = ground (
    arith,
    count_none (λ c. is_queued c && sql_lt c.joined_at r.joined_at) db
        (λ s n. elim (Bool-cases (s.verifying_key == r.verifying_key)) [
          | inl same ↦
              let f : s ≡ r = v.unique s r n m ((==_iff _ _).0 same) in
              ground (arith, ap (λ c. c.joined_at) f)
          | inr apart ↦ elim (Bool-cases (is_queued s)) [
            | inl waits ↦
                let after = front s n (ground arith) (ground arith) in ground (arith, after)
            | inr gone ↦ ground arith
          ]
        ]),
    q,
  )

  -- In a table with the invariant the current contributor is exactly the queued row at position 0.
  pub get_current-pos_of :
      (r : ContributorRow)
      → Memᴰ r db
      → (get_current db ≡ some r → (r.status ≡ queued) × (pos_of db r ≡ 0))
        × (r.status ≡ queued → pos_of db r ≡ 0 → get_current db ≡ some r)
  get_current-pos_of r m = (
    λ e. let (n, q, front) = get_current-some db v e in (q, IsFront-pos_of r m q front),
    λ q z. elim (Option-cases (get_current db)) [
      | inl none_is ↦ absurd (get_current-none db r none_is m q)
      | inr (s, e) ↦
          let (n, p, front) = get_current-some db v e in
          e ∙ ap some (front_unique db v s r n m p q front (pos_of-IsFront db v r m q z))
    ],
  )
