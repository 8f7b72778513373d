-- ===== src/Server/Queue/Register.antt =====
-- A new row, of a contributor who has not joined: `register` of
-- server/src/store/contributors_db/mod.rs.
use aptos_setup_ceremony.Base.{
  ℕ, ◌≡◌, refl, sym, ap, ◌∙◌, ◌⊎◌, inl, inr, Memᴰ, Memᴰ-append, append_left-Memᴰ, Memᴰ-cons, none,
  arith, List, [], ◌∷◌, ◌++◌,
}
use aptos_setup_ceremony.Contributor.{Contributor}
use aptos_setup_ceremony.Server.State.{Task}
use aptos_setup_ceremony.Server.Store.Row.{queued, ContributorRow, new, Table}
use aptos_setup_ceremony.Server.Store.Db.{find_key}
use aptos_setup_ceremony.Server.Queue.{IsValid, Inv}
use aptos_setup_ceremony.Server.Queue.Reads.{find_key-none}
use aptos_setup_ceremony.Server.Queue.Verifying.{Coupled, free, busy, IsGood}

module _ (db : Table) (c : Contributor) (now : ℕ) where
  abbrev extended : Table
  extended = db ++ new now c ∷ []

  row_cases : {r : ContributorRow} → Memᴰ r extended → Memᴰ r db ⊎ (r ≡ new now c)
  row_cases m = elim (Memᴰ-append db m) [
    | inl n ↦ inl n
    | inr n ↦ elim (Memᴰ-cons n) [ inl e ↦ inr e | inr k ↦ elim k [ ] ]
  ]

  queued_row : {r : ContributorRow} → Memᴰ r extended → r.status ≡ queued → Memᴰ r db
  unfolding new
  queued_row {r} m q = elim (row_cases m) [
    | inl n ↦ n
    | inr e ↦ absurd (let f = ap (λ (t : ContributorRow). t.status) e in ground arith)
  ]

  new-IsValid : IsValid (new now c)
  unfolding new
  new-IsValid = ground arith

  register-Inv : Inv db → find_key c.verifying_key db ≡ none → Inv extended
  unfolding new
  register-Inv v absent = record {
    valid = λ r m. elim (row_cases m) [ inl n ↦ v.valid r n | inr e ↦ rw e new-IsValid ];
    unique = λ r s m n k. elim (row_cases m) [
      | inl m' ↦ elim (row_cases n) [
        | inl n' ↦ v.unique r s m' n' k
        | inr f ↦ absurd (find_key-none _ db r absent m' (k ∙ ap (λ t. t.verifying_key) f))
      ]
      | inr e ↦ elim (row_cases n) [
        | inl n' ↦ absurd (find_key-none _ db s absent n' (sym k ∙ ap (λ t. t.verifying_key) e))
        | inr f ↦ e ∙ sym f
      ]
    ];
    distinct = λ r s m n p q. v.distinct r s (queued_row m p) (queued_row n q) p q;
    active = λ r m p a s n q. v.active r (queued_row m p) p a s (queued_row n q) q;
  }

  -- A key that is not yet there can be added.
  pub register-IsGood :
      (ts : List Task) → IsGood db ts → find_key c.verifying_key db ≡ none → IsGood extended ts
  register-IsGood ts g absent = record {
    table = register-Inv g.table absent;
    coupled = grown g.coupled;
  }
    where
      grown : Coupled db ts → Coupled extended ts
      grown (free e none_is) =
          free e
            λ r m. elim (row_cases m) [ inl n ↦ none_is r n | inr f ↦ rw f (unfold new in refl) ]
      grown (busy t r e m h k) = busy t r e (append_left-Memᴰ _ m) h k
