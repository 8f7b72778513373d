-- ===== src/Server/Queue/Reads.antt =====
-- What the queries of server/src/store/contributors_db/mod.rs find.
use aptos_setup_ceremony.Base.{
  ℕ, ◌≡◌, sym, ap, subst, ◌∙◌, ◌≢◌, inl, inr, Bool, true, false, ◌&&◌, Memᴰ, ◌==◌, ==_iff,
  Bool-cases, none, some, arith, Option, List, [], ◌∷◌, keep, count, keep-Memᴰ, Memᴰ-keep,
}
use aptos_setup_ceremony.Server.Store.OrderBy.{IsOrder, first-Memᴰ, first_least, first_none}
use aptos_setup_ceremony.Server.Store.Row.{queued, ContributorRow, Table}
use aptos_setup_ceremony.Server.Store.Db.{
  is_queued, sql_lt, order_lt, pos_of, find_key, get_current,
}
use aptos_setup_ceremony.Server.Queue.{is_some, IsFront, Inv}

-- The row that a key finds stands in the table, under that key.
pub find_key-some :
    (key : ℕ) (db : Table) {r : ContributorRow}
    → find_key key db ≡ some r
    → Memᴰ r db × (r.verifying_key ≡ key)
unfolding find_key
find_key-some key [] e = cc
find_key-some key (x ∷ xs) {r} e = elim (Bool-cases (x.verifying_key == key)) [
  | inl hit ↦
      let f : x ≡ r = ground arith in
      (Memᴰ.head (sym f), ap (λ t. t.verifying_key) (sym f) ∙ (==_iff _ _).0 hit)
  | inr miss ↦ let (m, k) = find_key-some key xs (ground arith) in (Memᴰ.tail m, k)
]

pub find_key-none :
    (key : ℕ) (db : Table) (r : ContributorRow)
    → find_key key db ≡ none
    → Memᴰ r db
    → r.verifying_key ≢ key
unfolding find_key
find_key-none key [] r e m = elim m [ ]
find_key-none key (x ∷ xs) r e (Memᴰ.head h) =
    λ k. ground (arith, h, k, ap (λ t. t.verifying_key) h)
find_key-none key (x ∷ xs) r e (Memᴰ.tail m) = find_key-none key xs r (ground arith) m

-- Where no row passes the test the count is zero, and conversely.
pub count_zero {ℓ} :
    {A : Type ℓ} (p : A → Bool) (xs : List A) {a : A} → count p xs ≡ 0 → Memᴰ a xs → p a ≡ false
count_zero p [] e m = elim m [ ]
count_zero p (x ∷ xs) {a} e (Memᴰ.head h) = rw h (ground arith)
count_zero p (x ∷ xs) e (Memᴰ.tail m) = count_zero p xs (ground arith) m

-- The row at position 0 of the queue is its front.
pub pos_of-IsFront :
    (db : Table) (v : Inv db) (r : ContributorRow)
    → Memᴰ r db
    → r.status ≡ queued
    → pos_of db r ≡ 0
    → IsFront db r
unfolding pos_of
pos_of-IsFront db v r m q e s n p d = elim (v.distinct r s m n q p (λ k. d (sym k))) [
  | inl h ↦ h
  | inr h ↦
      let none_before =
        count_zero (λ c2. is_queued c2 && sql_lt c2.joined_at r.joined_at) db {a = s} (ground arith)
          n in
      absurd (ground (arith, none_before))
]

pub sql_lt-order_lt :
    (a b : Option ℕ) → is_some a ≡ true → is_some b ≡ true → sql_lt a b ≡ order_lt a b
sql_lt-order_lt a b p q = ground arith

joined-IsOrder : IsOrder (λ (a b : ContributorRow). order_lt a.joined_at b.joined_at)
joined-IsOrder = record {
  asym = λ a b h. ground arith;
  irrefl = λ a. ground arith;
  weak = λ a b c h k. ground arith;
}

queued-keep : (r : ContributorRow) → is_queued r ≡ true → r.status ≡ queued
queued-keep r h = ground arith

-- The current contributor is queued, and the front of the queue.
pub get_current-some :
    (db : Table) (v : Inv db) {r : ContributorRow}
    → get_current db ≡ some r
    → Memᴰ r db × (r.status ≡ queued) × IsFront db r
unfolding get_current
get_current-some db v {r} e = (
  m,
  q,
  λ s n p d. elim (v.distinct r s m n q p (λ k. d (sym k))) [
    | inl h ↦ h
    | inr h ↦ absurd (
        ground
          (arith, h, least s n p, sql_lt-order_lt s.joined_at r.joined_at (vs s n p) (vs r m q)))
  ],
)
  where
    found : Memᴰ r (keep is_queued db)
    found = first-Memᴰ _ (keep is_queued db) e

    m : Memᴰ r db
    m = (keep-Memᴰ is_queued db found).0

    q : r.status ≡ queued
    q = queued-keep r (keep-Memᴰ is_queued db found).1

    vs : (s : ContributorRow) → Memᴰ s db → s.status ≡ queued → is_some s.joined_at ≡ true
    vs s n p = (v.valid s n).placed p

    least :
        (s : ContributorRow)
        → Memᴰ s db
        → s.status ≡ queued
        → order_lt s.joined_at r.joined_at ≡ false
    least s n p =
        first_least _ joined-IsOrder (keep is_queued db) e s
          (Memᴰ-keep is_queued db n (ground arith))

-- Without a current contributor nobody is queued.
pub get_current-none :
    (db : Table) (r : ContributorRow) → get_current db ≡ none → Memᴰ r db → r.status ≢ queued
unfolding get_current
get_current-none db r e m q =
    not_nil (
      subst (Memᴰ r) (first_none _ (keep is_queued db) e) (Memᴰ-keep is_queued db m (ground arith)))
  where
    not_nil : Memᴰ r [] → ⊥
    not_nil m = elim m [ ]
