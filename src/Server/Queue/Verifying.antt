-- ===== src/Server/Queue/Verifying.antt =====
-- At most one contribution is being verified, and its task is the one that is running: how the
-- table and the spawned tasks of server/src/handlers.rs go together.
use aptos_setup_ceremony.Base.{
  ℕ, ◌≡◌, refl, sym, ap, ◌∙◌, ◌≢◌, inl, inr, Bool, true, false, ◌&&◌, Memᴰ, ◌==◌, ==_iff,
  Bool-cases, arith, List, [], ◌∷◌, ◌++◌,
}
use aptos_setup_ceremony.Server.State.{Task, spawned, started, verified}
use aptos_setup_ceremony.Server.Store.Row.{queued, ContributorRow, Table, update_where}
use aptos_setup_ceremony.Server.Store.Db.{is_queued}
use aptos_setup_ceremony.Server.Queue.{
  is_some, Earlier, IsFront, Inv, update_row, Memᴰ-update_where, update_where-Memᴰ,
}

-- The key of the contributor whose upload a task verifies.
abbrev pub task_key : Task → ℕ
task_key (spawned c hash) = c.verifying_key
task_key (started c hash previous) = c.verifying_key
task_key (verified c result) = c.verifying_key

-- A queued contributor who has finished the upload.
abbrev pub is_verifying : ContributorRow → Bool
is_verifying r = is_queued r && is_some r.finished_upload_at

pub data Coupled (db : Table) (ts : List Task) : Type 0 where
  free : ts ≡ [] → ((r : ContributorRow) → Memᴰ r db → is_verifying r ≡ false) → Coupled db ts
  busy :
      (t : Task) (r : ContributorRow)
      → ts ≡ t ∷ []
      → Memᴰ r db
      → is_verifying r ≡ true
      → r.verifying_key ≡ task_key t
      → Coupled db ts

-- What holds of the server between two moves.
pub record IsGood (db : Table) (ts : List Task) : Type 0 where
  pub table : Inv db
  pub coupled : Coupled db ts

-- Two rows that are both in front of the queue are one.
pub front_unique :
    (db : Table) (v : Inv db) (r s : ContributorRow)
    → Memᴰ r db
    → Memᴰ s db
    → r.status ≡ queued
    → s.status ≡ queued
    → IsFront db r
    → IsFront db s
    → r ≡ s
front_unique db v r s m n p q f g = elim (Bool-cases (r.verifying_key == s.verifying_key)) [
  | inl e ↦ v.unique r s m n ((==_iff _ _).0 e)
  | inr d ↦
      let ne : r.verifying_key ≢ s.verifying_key = ground arith in
      let before : Earlier r s = f s n q (λ e. ne (sym e)) in
      let after : Earlier s r = g r m p ne in absurd (ground arith)
]

pub verifying-queued : (r : ContributorRow) → is_verifying r ≡ true → r.status ≡ queued
verifying-queued r h = ground arith

-- A contribution that is being verified is at the front.
pub verifying-IsFront :
    (db : Table) (v : Inv db) (r : ContributorRow)
    → Memᴰ r db
    → is_verifying r ≡ true
    → IsFront db r
verifying-IsFront db v r m h =
    v.active r m (verifying-queued r h) (let w = v.valid r m in ground arith)

module _ (db : Table) (key : ℕ) (set : ContributorRow → ContributorRow) where
  -- An update that starts or ends no verification leaves the coupling alone.
  pub update_where-Coupled :
      (ts : List Task)
      → ((r : ContributorRow)
          → Memᴰ r db
          → r.verifying_key ≡ key
          → ((set r).verifying_key ≡ r.verifying_key) × (is_verifying (set r) ≡ is_verifying r))
      → Coupled db ts
      → Coupled (update_where key set db) ts
  update_where-Coupled ts same (free e none_is) = free e λ r' m'.
      let (r, m, f) = Memᴰ-update_where key set db m' in
      elim (Bool-cases (r.verifying_key == key)) [
        | inl hit ↦ rw f (rw hit ((same r m ((==_iff _ _).0 hit)).1 ∙ none_is r m))
        | inr miss ↦ rw f (rw miss (none_is r m))
      ]
  update_where-Coupled ts same (busy t r e m h k) = elim (Bool-cases (r.verifying_key == key)) [
    | inl hit ↦
        let (kk, vv) = same r m ((==_iff _ _).0 hit) in
        busy t (update_row key set r) e (update_where-Memᴰ key set db m) (rw hit (vv ∙ h))
          (rw hit (kk ∙ k))
    | inr miss ↦
        busy t (update_row key set r) e (update_where-Memᴰ key set db m) (rw miss h) (rw miss k)
  ]

  -- The upload at the front is finished: nothing was being verified, and now it is.
  pub update_where-busy :
      (v : Inv db) (ts : List Task) (t : Task) (r : ContributorRow)
      → Memᴰ r db
      → r.status ≡ queued
      → IsFront db r
      → is_verifying r ≡ false
      → r.verifying_key ≡ key
      → (set r).verifying_key ≡ key
      → is_verifying (set r) ≡ true
      → key ≡ task_key t
      → Coupled db ts
      → Coupled (update_where key set db) (ts ++ t ∷ [])
  update_where-busy v ts t r m q front not_yet k k' now_is kt (free e none_is) =
      busy t (update_row key set r) (rw e) (update_where-Memᴰ key set db m)
        (rw ((==_iff _ _).1 k) now_is) (rw ((==_iff _ _).1 k) (k' ∙ kt))
  update_where-busy v ts t r m q front not_yet k k' now_is kt (busy t' s e n h k'') =
      let same =
        front_unique db v r s m n q (verifying-queued s h) front (verifying-IsFront db v s n h) in
      absurd (ground (arith, ap is_verifying same))

  -- The end of the one verification.
  pub update_where-free :
      (v : Inv db) (r : ContributorRow)
      → Memᴰ r db
      → is_verifying r ≡ true
      → r.verifying_key ≡ key
      → is_verifying (set r) ≡ false
      → Coupled (update_where key set db) []
  update_where-free v r m h k gone = free refl λ s' n'.
      let (s, n, f) = Memᴰ-update_where key set db n' in
      elim (Bool-cases (is_verifying s)) [
        | inl yes_it ↦
            let same =
              front_unique db v s r n m (verifying-queued s yes_it) (verifying-queued r h)
                (verifying-IsFront db v s n yes_it) (verifying-IsFront db v r m h) in
            rw (f, same) (rw ((==_iff _ _).1 k) gone)
        | inr not_it ↦ elim (Bool-cases (s.verifying_key == key)) [
          | inl hit ↦
              let same = v.unique s r n m ((==_iff _ _).0 hit ∙ sym k) in
              rw (f, same) (rw ((==_iff _ _).1 k) gone)
          | inr miss ↦ rw f (rw miss not_it)
        ]
      ]
