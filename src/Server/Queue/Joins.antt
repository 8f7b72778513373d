-- ===== src/Server/Queue/Joins.antt =====
-- Registering and joining: server/src/handlers.rs over the table.
use aptos_setup_ceremony.Base.{
  ℕ, ◌≡◌, ◌≢◌, false, subst, refl, sym, ap, ◌∙◌, ◌⊎◌, inl, inr, Bool, ◌&&◌, ◌==◌, ==_iff,
  Bool-cases, some, none, Memᴰ, arith, [], ◌∷◌, ◌++◌, count, Option-cases,
}
use aptos_setup_ceremony.Contributor.{Contributor}
use aptos_setup_ceremony.Server.Error.{
  ok, err, already_in_queue, already_finished, contributor_not_found, bad_request,
  already_registered, from_error, fail, Outcome,
}
use aptos_setup_ceremony.Server.State.{FilesStore, State}
use aptos_setup_ceremony.Server.Store.Row.{
  didnt_join_queue, queued, kicked, finished, ContributorRow, Table, update_where, enqueue,
  set_enqueued, new, download_not_started, get_current_contribution_step,
}
use aptos_setup_ceremony.Server.Store.Db.{
  is_queued, sql_lt, pos_of, find_key, get_with_pos, register,
}
use aptos_setup_ceremony.Server.Handlers.{handle_join}
use aptos_setup_ceremony.Server.Queue.{Inv, IsFresh, update_row}
use aptos_setup_ceremony.Server.Queue.Reads.{find_key-some}

module _ (key : ℕ) (set : ContributorRow → ContributorRow) where
  count-update_where :
      (p q : ContributorRow → Bool) (db : Table)
      → ((s : ContributorRow) → Memᴰ s db → p (update_row key set s) ≡ q s)
      → count p (update_where key set db) ≡ count q db
  unfolding update_where
  count-update_where p q [] same = refl
  count-update_where p q (x ∷ xs) same =
      ground
        (arith, same x (Memᴰ.head refl), count-update_where p q xs (λ s m. same s (Memᴰ.tail m)))

  find_key-update_where :
      (db : Table) (r : ContributorRow)
      → find_key key db ≡ some r
      → (set r).verifying_key ≡ key
      → find_key key (update_where key set db) ≡ some (set r)
  unfolding update_where find_key
  find_key-update_where [] r e k = ground arith
  find_key-update_where (x ∷ xs) r e k = elim (Bool-cases (x.verifying_key == key)) [
    | inl hit ↦
        let f : x ≡ r = ground arith in
        rw (hit, ap set f, (==_iff (set r).verifying_key key).1 k) refl
    | inr miss ↦ rw (miss, miss) (find_key-update_where xs r (ground arith) k)
  ]

module _ (db : Table) (v : Inv db) (r : ContributorRow) (m : Memᴰ r db)
    (out : (r.status ≡ didnt_join_queue) ⊎ (r.status ≡ kicked)) where
  -- Who joins gets the position behind all who are queued.
  pos_of-enqueue :
      (now d c u : ℕ)
      → IsFresh now db
      → pos_of (enqueue now r d c u db) (set_enqueued now d c u r) ≡ count is_queued db
  unfolding enqueue set_enqueued pos_of
  pos_of-enqueue now d c u fresh =
      count-update_where r.verifying_key (set_enqueued now d c u)
        (λ s. is_queued s && sql_lt s.joined_at (some now)) is_queued db
        λ s n. elim (Bool-cases (s.verifying_key == r.verifying_key)) [
          | inl hit ↦
              let f = v.unique s r n m ((==_iff _ _).0 hit) in
              rw (hit, f) (unfold set_enqueued in ground arith)
          | inr miss ↦ rw miss (ground (arith, fresh s n))
        ]

status-cases :
    (r : ContributorRow)
    → ((r.status ≡ didnt_join_queue) ⊎ (r.status ≡ kicked))
      ⊎ (r.status ≡ queued)
      ⊎ (r.status ≡ finished)
status-cases r = ground arith

-- Another key's row is found as before.
find_key-other :
    (key k : ℕ) (set : ContributorRow → ContributorRow) (db : Table)
    → ((r : ContributorRow) → (set r).verifying_key ≡ r.verifying_key)
    → k ≢ key
    → find_key k (update_where key set db) ≡ find_key k db
unfolding update_where find_key
find_key-other key k set [] q d = refl
find_key-other key k set (x ∷ xs) q d =
    let ih = find_key-other key k set xs q d in
    elim (Bool-cases (x.verifying_key == key)) [
      | inl h ↦
          let other : (x.verifying_key == k) ≡ false =
            let f = (==_iff x.verifying_key key).0 h in ground (arith, f, d) in
          let other' : ((set x).verifying_key == k) ≡ false = ap (λ n. n == k) (q x) ∙ other in
          rw (h, other, other') ih
      | inr h ↦ rw (h, ih) refl
    ]

-- What an accepted join makes of the state: the contributor's row waits at the end of the queue with
-- no step begun and nothing left of an earlier kick, and nobody else's row has changed.
pub record Joined {S : Type 0} (c : Contributor) (s s' : State S) : Type 0 where
  pub row : ContributorRow
  pub found : find_key c.verifying_key s'.contributors_db ≡ some row
  pub waits : row.status ≡ queued
  pub not_begun : get_current_contribution_step row ≡ download_not_started
  pub not_kicked : row.kicked_error ≡ none
  pub last : pos_of s'.contributors_db row ≡ count is_queued s.contributors_db
  pub others :
      (k : ℕ) → k ≢ c.verifying_key → find_key k s'.contributors_db ≡ find_key k s.contributors_db
  pub tasks_kept : s'.tasks ≡ s.tasks
  pub files_kept : s'.contribution_files_store ≡ s.contribution_files_store

module _ (F : FilesStore) (s : State F.St) (v : Inv s.contributors_db) (c : Contributor)
    (now download compute upload : ℕ) where
  abbrev set : ContributorRow → ContributorRow
  set = set_enqueued now download compute upload

  enqueued-Joined :
      (r : ContributorRow)
      → IsFresh now s.contributors_db
      → find_key c.verifying_key s.contributors_db ≡ some r
      → (r.status ≡ didnt_join_queue) ⊎ (r.status ≡ kicked)
      → Joined c s
          (record s { contributors_db = enqueue now r download compute upload s.contributors_db })
  unfolding enqueue set_enqueued get_current_contribution_step
  enqueued-Joined r fresh e out =
      let (m, k) = find_key-some c.verifying_key s.contributors_db e in
      let not_verified : r.finished_verify_at ≡ none =
        let f = (v.valid r m).only_finished in ground (arith, f, out) in
      record {
        row = set r;
        found =
            ap (λ n. find_key c.verifying_key (update_where n set s.contributors_db)) k
            ∙ find_key-update_where c.verifying_key set s.contributors_db r e k;
        waits = refl;
        not_begun = ground (arith, not_verified);
        not_kicked = refl;
        last = pos_of-enqueue s.contributors_db v r m out now download compute upload fresh;
        others = λ n d.
            ap (λ key. find_key n (update_where key set s.contributors_db)) k
            ∙ find_key-other c.verifying_key n set s.contributors_db (λ x. refl) d;
        tasks_kept = refl;
        files_kept = refl;
      }

  -- Over a table with the invariant, when the clock has passed the joining times of the queue, the
  -- row of the contributor decides how a join is answered. Without a row it is refused as unknown.
  -- Who had not joined or had been kicked is taken in behind all who were queued, with the row reset
  -- and everything else kept. Who is queued or has finished is refused with 400. A refusal leaves the
  -- state as it was.
  pub handle_join-back :
      IsFresh now s.contributors_db
      → (let r = handle_join F c now download compute upload s in
          ((find_key c.verifying_key s.contributors_db ≡ none)
            × (r ≡ (err (from_error contributor_not_found), s)))
          ⊎ ((row : ContributorRow) × (find_key c.verifying_key s.contributors_db ≡ some row)
              × ((((row.status ≡ didnt_join_queue) ⊎ (row.status ≡ kicked))
                    × (r.0 ≡ ok tt)
                    × Joined c s r.1)
                  ⊎ ((row.status ≡ queued) × (r ≡ (fail already_in_queue bad_request, s)))
                  ⊎ ((row.status ≡ finished) × (r ≡ (fail already_finished bad_request, s))))))
  unfolding handle_join get_with_pos
  handle_join-back fresh = elim (Option-cases (find_key c.verifying_key s.contributors_db)) [
    | inl e ↦ inl (e, ground arith)
    | inr (row, e) ↦ inr (
      row,
      e,
      elim (status-cases row) [
        | inl out ↦
            let joined : handle_join F c now download compute upload s ≡ (
              ok tt,
              record s {
                contributors_db = enqueue now row download compute upload s.contributors_db;
              },
            ) =
              ground (arith, e, out) in
            inl (
              out,
              ap (λ p. p.0) joined,
              subst (λ (p : Outcome (Unit {0}) × State F.St). Joined c s p.1) (sym joined)
                  (enqueued-Joined row fresh e out),
            )
        | inr (inl q) ↦ inr (inl (q, ground arith))
        | inr (inr q) ↦ inr (inr (q, ground arith))
      ],
    )
  ]

find_key-append :
    (key : ℕ) (db : Table) (r : ContributorRow)
    → find_key key db ≡ none
    → r.verifying_key ≡ key
    → find_key key (db ++ r ∷ []) ≡ some r
unfolding find_key
find_key-append key [] r e k = rw ((==_iff r.verifying_key key).1 k) refl
find_key-append key (x ∷ xs) r e k = elim (Bool-cases (x.verifying_key == key)) [
  | inl hit ↦ absurd (ground arith)
  | inr miss ↦ rw miss (find_key-append key xs r (ground arith) k)
]

-- A contributor whom `register` has taken in is found by the key, with the row of a newcomer, and
-- a second registration of the key, under any name, is refused as already registered.
pub register-find :
    (now later : ℕ) (c c' : Contributor) (db db' : Table)
    → register now c db ≡ ok db'
    → c'.verifying_key ≡ c.verifying_key
    → (find_key c.verifying_key db' ≡ some (new now c))
      × (register later c' db' ≡ err (from_error already_registered))
unfolding register
register-find now later c c' db db' e k = elim (Option-cases (find_key c.verifying_key db)) [
  | inl absent ↦
      let f : db ++ new now c ∷ [] ≡ db' = ground arith in
      let found =
        ap (find_key c.verifying_key) (sym f)
        ∙ find_key-append c.verifying_key db (new now c) absent (unfold new in refl) in
      (found, ground (arith, ap (λ n. find_key n db') k ∙ found))
  | inr (r, h) ↦ absurd (ground arith)
]
