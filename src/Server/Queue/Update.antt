-- ===== src/Server/Queue/Update.antt =====
-- An UPDATE of the row with one key keeps the invariant of the table where its change is sound.
use aptos_setup_ceremony.Base.{
  ℕ, ◌≡◌, refl, sym, ap, subst, ◌∙◌, ◌≢◌, ◌⊎◌, inl, inr, true, Memᴰ, ◌==◌, ==_iff, Bool-cases,
}
use aptos_setup_ceremony.Server.Store.Row.{queued, ContributorRow, Table, update_where}
use aptos_setup_ceremony.Server.Queue.{
  is_some, IsValid, Earlier, Inv, Change, stay, leave, enter, update_row, Memᴰ-update_where,
}

-- What `set` must do to a row with the key, for the table to keep its invariant.
pub record IsSound (db : Table) (set : ContributorRow → ContributorRow) (r : ContributorRow)
    : Type 0 where
  pub key_kept : (set r).verifying_key ≡ r.verifying_key
  pub still_valid : IsValid (set r)
  pub change : Change db r (set r)

module _ (db : Table) (key : ℕ) (set : ContributorRow → ContributorRow) (v : Inv db)
    (sound : (r : ContributorRow) → Memᴰ r db → r.verifying_key ≡ key → IsSound db set r) where
  pub key-update_row :
      (r : ContributorRow) → Memᴰ r db → (update_row key set r).verifying_key ≡ r.verifying_key
  key-update_row r m = elim (Bool-cases (r.verifying_key == key)) [
    | inl hit ↦ rw hit (sound r m ((==_iff _ _).0 hit)).key_kept
    | inr miss ↦ rw miss refl
  ]

  update_row-IsValid : (r : ContributorRow) → Memᴰ r db → IsValid (update_row key set r)
  update_row-IsValid r m = elim (Bool-cases (r.verifying_key == key)) [
    | inl hit ↦ rw hit (sound r m ((==_iff _ _).0 hit)).still_valid
    | inr miss ↦ rw miss (v.valid r m)
  ]

  flip : {A B : Type 0} → A ⊎ B → B ⊎ A
  flip (inl a) = inr a
  flip (inr b) = inl b

  changed-Earlier :
      (r s : ContributorRow)
      → Memᴰ r db
      → Memᴰ s db
      → Change db r (set r)
      → (set r).status ≡ queued
      → s.status ≡ queued
      → r.verifying_key ≢ s.verifying_key
      → Earlier (set r) s ⊎ Earlier s (set r)
  changed-Earlier r s m n (stay e f g) p q d = rw f (v.distinct r s m n (sym e ∙ p) q d)
  changed-Earlier r s m n (leave e) p q d = absurd (e p)
  changed-Earlier r s m n (enter now fresh e f) p q d = inr (rw e (fresh s n q))

  -- Two queued rows of the new table have joined at different times.
  update_row-Earlier :
      (r s : ContributorRow)
      → Memᴰ r db
      → Memᴰ s db
      → (update_row key set r).status ≡ queued
      → (update_row key set s).status ≡ queued
      → r.verifying_key ≢ s.verifying_key
      → Earlier (update_row key set r) (update_row key set s)
        ⊎ Earlier (update_row key set s) (update_row key set r)
  update_row-Earlier r s m n = elim (Bool-cases (r.verifying_key == key)) [
    | inl a ↦ elim (Bool-cases (s.verifying_key == key)) [
      | inl b ↦ λ p q d. absurd (d ((==_iff _ _).0 a ∙ sym ((==_iff _ _).0 b)))
      | inr b ↦
          rw (a, b) λ p q d. changed-Earlier r s m n (sound r m ((==_iff _ _).0 a)).change p q d
    ]
    | inr a ↦ elim (Bool-cases (s.verifying_key == key)) [
      | inl b ↦
          rw (a, b)
            λ p q d.
              flip
                (changed-Earlier s r n m (sound s n ((==_iff _ _).0 b)).change q p (λ e. d (sym e)))
      | inr b ↦ rw (a, b) λ p q d. v.distinct r s m n p q d
    ]
  ]

  changed-front :
      (r s : ContributorRow)
      → Memᴰ s db
      → Change db r (set r)
      → (set r).status ≡ queued
      → is_some (set r).started_download_at ≡ true
      → s.status ≡ queued
      → s.verifying_key ≢ r.verifying_key
      → Earlier (set r) s
  changed-front r s n (stay e f g) p a q d = rw f (g (sym e ∙ p) a s n q d)
  changed-front r s n (leave e) p a q d = absurd (e p)
  changed-front r s n (enter now fresh e f) p a q d = absurd (cc (a, f))

  behind_changed :
      (r s : ContributorRow)
      → Memᴰ r db
      → Memᴰ s db
      → Change db s (set s)
      → r.status ≡ queued
      → is_some r.started_download_at ≡ true
      → (set s).status ≡ queued
      → s.verifying_key ≢ r.verifying_key
      → Earlier r (set s)
  behind_changed r s m n (stay e f g) p a q d = rw f (v.active r m p a s n (sym e ∙ q) d)
  behind_changed r s m n (leave e) p a q d = absurd (e q)
  behind_changed r s m n (enter now fresh e f) p a q d = rw e (fresh r m p)

  -- A row of the new table whose download has started is the front of its queue.
  update_row-front :
      (r s : ContributorRow)
      → Memᴰ r db
      → Memᴰ s db
      → (update_row key set r).status ≡ queued
      → is_some (update_row key set r).started_download_at ≡ true
      → (update_row key set s).status ≡ queued
      → s.verifying_key ≢ r.verifying_key
      → Earlier (update_row key set r) (update_row key set s)
  update_row-front r s m n = elim (Bool-cases (r.verifying_key == key)) [
    | inl a ↦ elim (Bool-cases (s.verifying_key == key)) [
      | inl b ↦ λ p x q d. absurd (d ((==_iff _ _).0 b ∙ sym ((==_iff _ _).0 a)))
      | inr b ↦
          rw (a, b) λ p x q d. changed-front r s n (sound r m ((==_iff _ _).0 a)).change p x q d
    ]
    | inr a ↦ elim (Bool-cases (s.verifying_key == key)) [
      | inl b ↦
          rw (a, b) λ p x q d. behind_changed r s m n (sound s n ((==_iff _ _).0 b)).change p x q d
      | inr b ↦ rw (a, b) λ p x q d. v.active r m p x s n q d
    ]
  ]

  same_key :
      (r s : ContributorRow)
      → Memᴰ r db
      → Memᴰ s db
      → (update_row key set r).verifying_key ≢ (update_row key set s).verifying_key
      → r.verifying_key ≢ s.verifying_key
  same_key r s m n d e = d (key-update_row r m ∙ e ∙ sym (key-update_row s n))

  -- The whole table keeps its invariant.
  pub update_where-Inv : Inv (update_where key set db)
  update_where-Inv = record {
    valid =
        λ r' m'. let (r, m, e) = Memᴰ-update_where key set db m' in rw e (update_row-IsValid r m);
    unique = λ r' s' m' n'.
        let (r, m, e) = Memᴰ-update_where key set db m' in
        let (s, n, f) = Memᴰ-update_where key set db n' in
        rw (e, f)
          λ d.
            ap (update_row key set)
              (v.unique r s m n (sym (key-update_row r m) ∙ d ∙ key-update_row s n));
    distinct = λ r' s' m' n'.
        let (r, m, e) = Memᴰ-update_where key set db m' in
        let (s, n, f) = Memᴰ-update_where key set db n' in
        rw (e, f) λ p q d. update_row-Earlier r s m n p q (same_key r s m n d);
    active = λ r' m' p' a' s' n'.
        let (r, m, e) = Memᴰ-update_where key set db m' in
        let (s, n, f) = Memᴰ-update_where key set db n' in
        rw f λ q d.
          subst (λ t. Earlier t (update_row key set s)) (sym e)
            (update_row-front r s m n (subst (λ t. t.status ≡ queued) e p')
              (subst (λ t. is_some t.started_download_at ≡ true) e a') q
              (same_key s r n m
                (subst (λ t. (update_row key set s).verifying_key ≢ t.verifying_key) e d)));
  }
