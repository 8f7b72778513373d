-- ===== src/Server/Store/OrderBy.antt =====
-- ORDER BY of the queries of server/src/store/contributors_db/mod.rs: a stable insertion sort by a
-- test `before`, and what stands first in its result (LIMIT 1).
use aptos_setup_ceremony.Base.{
  ◌≡◌, refl, ap, subst, ◌⊎◌, inl, inr, Bool, true, false, Memᴰ, Memᴰ-cons, Option-cases, Bool-cases,
  if◌then◌else◌, none, some, arith, List, [], ◌∷◌, head?,
}

module _ {ℓ} {A : Type ℓ} where
  unfoldable pub order_insert : (A → A → Bool) → A → List A → List A
  order_insert before r [] = r ∷ []
  order_insert before r (s ∷ rs) = if before s r then s ∷ order_insert before r rs else r ∷ s ∷ rs

  unfoldable pub order_by : (A → A → Bool) → List A → List A
  unfolding order_insert
  order_by before [] = []
  order_by before (r ∷ rs) = order_insert before r (order_by before rs)

-- A strict weak order.
pub record IsOrder {ℓ} {A : Type ℓ} (before : A → A → Bool) : Type ℓ where
  pub asym : (a b : A) → before a b ≡ true → before b a ≡ false
  pub irrefl : (a : A) → before a a ≡ false
  pub weak : (a b c : A) → before b a ≡ false → before c b ≡ false → before c a ≡ false

module _ {ℓ} {A : Type ℓ} (before : A → A → Bool) where
  insert_cases :
      (r s : A) (rs : List A)
      → ((before s r ≡ true) × (order_insert before r (s ∷ rs) ≡ s ∷ order_insert before r rs))
        ⊎ ((before s r ≡ false) × (order_insert before r (s ∷ rs) ≡ r ∷ s ∷ rs))
  unfolding order_insert
  insert_cases r s rs = elim (Bool-cases (before s r)) [
    | inl h ↦ inl (h, rw h)
    | inr h ↦ inr (h, rw h)
  ]

  Memᴰ-order_insert :
      (r : A) (rs : List A) {a : A} → Memᴰ a (order_insert before r rs) → (a ≡ r) ⊎ Memᴰ a rs
  Memᴰ-order_insert r [] m = unfold order_insert in Memᴰ-cons m
  Memᴰ-order_insert r (s ∷ rs) {a} m = elim (insert_cases r s rs) [
    | inl (h, e) ↦ elim (Memᴰ-cons (subst (Memᴰ a) e m)) [
      | inl f ↦ inr (Memᴰ.head f)
      | inr n ↦ elim (Memᴰ-order_insert r rs n) [ inl f ↦ inl f | inr k ↦ inr (Memᴰ.tail k) ]
    ]
    | inr (h, e) ↦ Memᴰ-cons (subst (Memᴰ a) e m)
  ]

  -- A sorted list has no new elements.
  pub order_by-Memᴰ : (rs : List A) {a : A} → Memᴰ a (order_by before rs) → Memᴰ a rs
  unfolding order_by
  order_by-Memᴰ [] m = m
  order_by-Memᴰ (r ∷ rs) m = elim (Memᴰ-order_insert r (order_by before rs) m) [
    | inl e ↦ Memᴰ.head e
    | inr n ↦ Memᴰ.tail (order_by-Memᴰ rs n)
  ]

  head?-Memᴰ : (rs : List A) {h : A} → head? rs ≡ some h → Memᴰ h rs
  head?-Memᴰ [] e = cc
  head?-Memᴰ (r ∷ rs) e = Memᴰ.head (cc)

  -- The first of the sorted list is one of the list.
  pub first-Memᴰ : (rs : List A) {h : A} → head? (order_by before rs) ≡ some h → Memᴰ h rs
  first-Memᴰ rs e = order_by-Memᴰ rs (head?-Memᴰ _ e)

  pub first_none : (rs : List A) → head? (order_by before rs) ≡ none → rs ≡ []
  unfolding order_by
  first_none [] e = refl
  first_none (r ∷ rs) e = absurd (go (order_by before rs) e)
    where
      go : (ts : List A) → head? (order_insert before r ts) ≡ none → ⊥
      go [] e = unfold order_insert in cc
      go (t ∷ ts) e = elim (insert_cases r t ts) [ inl (h, f) ↦ cc | inr (h, f) ↦ cc ]

  insert_first :
      (r : A) (ts : List A) {h : A}
      → head? (order_insert before r ts) ≡ some h
      → ((h ≡ r) × ((t : A) → head? ts ≡ some t → before t r ≡ false))
        ⊎ ((head? ts ≡ some h) × (before h r ≡ true))
  insert_first r [] e = unfold order_insert in inl (cc, λ t f. cc)
  insert_first r (t ∷ ts) e = elim (insert_cases r t ts) [
    | inl (h, f) ↦ inr (cc, ground (arith, ap head? f))
    | inr (h, f) ↦ inl (cc, λ u g. ground arith)
  ]

  module _ (o : IsOrder before) where
    -- Nothing of the list stands before the first of the sorted list.
    pub first_least :
        (rs : List A) {h : A}
        → head? (order_by before rs) ≡ some h
        → (s : A) → Memᴰ s rs
        → before s h ≡ false
    first_least [] e s m = elim m [ ]
    first_least (r ∷ rs) {h} e s m =
        elim (insert_first r (order_by before rs) {h = h} (unfold order_by in e)) [
          | inl (f, k) ↦ elim (Memᴰ-cons m) [
            | inl g ↦ rw (f, g) (o.irrefl r)
            | inr n ↦ elim (Option-cases (head? (order_by before rs))) [
              | inl empty ↦ absurd (not_nil (subst (Memᴰ s) (first_none rs empty) n))
              | inr (t, p) ↦ rw f (o.weak r t s (k t p) (first_least rs p s n))
            ]
          ]
          | inr (f, k) ↦ elim (Memᴰ-cons m) [
            | inl g ↦ rw g (o.asym h r k)
            | inr n ↦ first_least rs f s n
          ]
        ]
      where
        not_nil : Memᴰ s [] → ⊥
        not_nil m = elim m [ ]
