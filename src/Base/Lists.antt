-- ===== src/Base/Lists.antt =====
-- Lists measured and indexed by native numbers, and membership as data.
use Prim.Native.Nat.{ℕ, zero, suc, ◌+◌, ◌-◌, min}
use mathlib.Core.Path.{◌≡◌, refl, sym, ap, ◌∙◌}
use mathlib.Core.Logic.{◌⊎◌, inl, inr}
use mathlib.Core.Bool.{Bool, true, false}
use mathlib.Core.List.{List, [], ◌∷◌, ◌++◌, map, Memᴰ}
use mathlib.Core.Option.{Option, none, some}
use native.Mathlib.Omega.{arith}
use aptos_setup_ceremony.Base.Tests.{if◌then◌else◌}

module _ {ℓ} {A : Type ℓ} where
  abbrev pub length : List A → ℕ
  length [] = 0
  length (x ∷ xs) = suc (length xs)

  abbrev pub take : ℕ → List A → List A
  take zero xs = []
  take (suc n) [] = []
  take (suc n) (x ∷ xs) = x ∷ take n xs

  abbrev pub drop : ℕ → List A → List A
  drop zero xs = xs
  drop (suc n) [] = []
  drop (suc n) (x ∷ xs) = drop n xs

  abbrev pub replicate : ℕ → A → List A
  replicate zero a = []
  replicate (suc n) a = a ∷ replicate n a

  abbrev pub head? : List A → Option A
  head? [] = none
  head? (x ∷ xs) = some x

  abbrev pub count : (A → Bool) → List A → ℕ
  count p [] = 0
  count p (x ∷ xs) = if p x then suc (count p xs) else count p xs

  abbrev pub keep : (A → Bool) → List A → List A
  keep p [] = []
  keep p (x ∷ xs) = if p x then x ∷ keep p xs else keep p xs

  pub length-append : (xs ys : List A) → length (xs ++ ys) ≡ length xs + length ys
  length-append [] ys = omega arith
  length-append (x ∷ xs) ys = omega (arith, length-append xs ys)

  pub length-replicate : (n : ℕ) (a : A) → length (replicate n a) ≡ n
  length-replicate zero a = refl
  length-replicate (suc n) a = ap suc (length-replicate n a)

  pub length-take : (n : ℕ) (xs : List A) → length (take n xs) ≡ min n (length xs)
  length-take zero xs = omega arith
  length-take (suc n) [] = omega arith
  length-take (suc n) (x ∷ xs) = omega (arith, length-take n xs)

  pub length-drop : (n : ℕ) (xs : List A) → length (drop n xs) ≡ length xs - n
  length-drop zero xs = omega arith
  length-drop (suc n) [] = omega arith
  length-drop (suc n) (x ∷ xs) = omega (arith, length-drop n xs)

  pub take-append-drop : (n : ℕ) (xs : List A) → take n xs ++ drop n xs ≡ xs
  take-append-drop zero xs = refl
  take-append-drop (suc n) [] = refl
  take-append-drop (suc n) (x ∷ xs) = rw (take-append-drop n xs)

module _ {ℓ} {A : Type ℓ} where
  pub length-map {κ} : {B : Type κ} (xs : List A) (f : A → B) → length (map f xs) ≡ length xs
  length-map [] f = refl
  length-map (x ∷ xs) f = ap suc (length-map xs f)

  -- An element of a filtered list passes the test and stands in the list.
  keep_cons-Memᴰ :
      (p : A → Bool) {a : A} (x : A) (xs : List A) (b : Bool)
      → p x ≡ b
      → (Memᴰ a (keep p xs) → Memᴰ a xs × (p a ≡ true))
      → Memᴰ a (if b then x ∷ keep p xs else keep p xs)
      → Memᴰ a (x ∷ xs) × (p a ≡ true)
  keep_cons-Memᴰ p x xs true e ih (Memᴰ.head h) = (Memᴰ.head h, rw h e)
  keep_cons-Memᴰ p x xs true e ih (Memᴰ.tail t) = let r = ih t in (Memᴰ.tail r.0, r.1)
  keep_cons-Memᴰ p x xs false e ih t = let r = ih t in (Memᴰ.tail r.0, r.1)

  pub keep-Memᴰ :
      (p : A → Bool) {a : A} (xs : List A) → Memᴰ a (keep p xs) → Memᴰ a xs × (p a ≡ true)
  keep-Memᴰ p [] m = elim m [ ]
  keep-Memᴰ p (x ∷ xs) m = keep_cons-Memᴰ p x xs (p x) refl (keep-Memᴰ p xs) m

  keep_tail-Memᴰ :
      (p : A → Bool) {a : A} (x : A) (xs : List A) (b : Bool)
      → Memᴰ a (keep p xs)
      → Memᴰ a (if b then x ∷ keep p xs else keep p xs)
  keep_tail-Memᴰ p x xs true m = Memᴰ.tail m
  keep_tail-Memᴰ p x xs false m = m

  pub Memᴰ-keep : (p : A → Bool) {a : A} (xs : List A) → Memᴰ a xs → p a ≡ true → Memᴰ a (keep p xs)
  Memᴰ-keep p [] m h = elim m [ ]
  Memᴰ-keep p (x ∷ xs) (Memᴰ.head e) h = rw (ap p (sym e) ∙ h) (Memᴰ.head e)
  Memᴰ-keep p (x ∷ xs) (Memᴰ.tail t) h = keep_tail-Memᴰ p x xs (p x) (Memᴰ-keep p xs t h)

  pub Memᴰ-cons : {a x : A} {xs : List A} → Memᴰ a (x ∷ xs) → (a ≡ x) ⊎ Memᴰ a xs
  Memᴰ-cons (Memᴰ.head e) = inl e
  Memᴰ-cons (Memᴰ.tail m) = inr m

  pub Memᴰ-append : {a : A} (xs : List A) {ys : List A} → Memᴰ a (xs ++ ys) → Memᴰ a xs ⊎ Memᴰ a ys
  Memᴰ-append [] m = inr m
  Memᴰ-append (x ∷ xs) (Memᴰ.head e) = inl (Memᴰ.head e)
  Memᴰ-append (x ∷ xs) (Memᴰ.tail m) = elim (Memᴰ-append xs m) [
    | inl n ↦ inl (Memᴰ.tail n)
    | inr n ↦ inr n
  ]

  pub append_left-Memᴰ : {a : A} {xs : List A} (ys : List A) → Memᴰ a xs → Memᴰ a (xs ++ ys)
  append_left-Memᴰ ys (Memᴰ.head e) = Memᴰ.head e
  append_left-Memᴰ ys (Memᴰ.tail m) = Memᴰ.tail (append_left-Memᴰ ys m)
