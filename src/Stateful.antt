-- ===== src/Stateful.antt =====
-- Code that goes on from state to state, and may fail or panic. A panic keeps the state it came in.
use aptos_setup_ceremony.Base.{ℕ, zero, suc, ◌≡◌, refl, List, [], ◌∷◌}
use aptos_setup_ceremony.Crypto.Attempt.{Attempt, done, failed, panicked}

abbrev pub Action : Type 0 → Type 0 → Type 0 → Type 0
Action E S A = S → Attempt E A × S

-- What comes after a result.
abbrev pub next : {E S A B : Type 0} → Attempt E A × S → (A → Action E S B) → Attempt E B × S
next (done a, s) f = f a s
next (failed e, s) f = (failed e, s)
next (panicked, s) f = (panicked, s)

infixl 5 ◌>>=◌ ◌>>◌
abbrev pub ◌>>=◌ : {E S A B : Type 0} → Action E S A → (A → Action E S B) → Action E S B
◌>>=◌ m f s = next (m s) f

abbrev pub ◌>>◌ : {E S A B : Type 0} → Action E S A → Action E S B → Action E S B
m >> k = m >>= λ _. k

abbrev pub pure : {E S A : Type 0} → A → Action E S A
pure a s = (done a, s)

abbrev pub throw : {E S A : Type 0} → E → Action E S A
throw e s = (failed e, s)

-- A result that leaves the state alone.
abbrev pub lift : {E S A : Type 0} → Attempt E A → Action E S A
lift r s = (r, s)

abbrev pub unwrapped : {E S A : Type 0} → Attempt E A × S → Attempt E A × S
unwrapped (done a, s) = (done a, s)
unwrapped (failed e, s) = (panicked, s)
unwrapped (panicked, s) = (panicked, s)

-- `unwrap` and `expect`.
abbrev pub unwrap : {E S A : Type 0} → Action E S A → Action E S A
unwrap m s = unwrapped (m s)

abbrev pub converted : {E E' S A : Type 0} → (E → E') → Attempt E A × S → Attempt E' A × S
converted f (done a, s) = (done a, s)
converted f (failed e, s) = (failed (f e), s)
converted f (panicked, s) = (panicked, s)

-- `?` with a conversion of the error.
abbrev pub map_err : {E E' S A : Type 0} → (E → E') → Action E S A → Action E' S A
map_err f m s = converted f (m s)

-- The indices `i..i + n`.
abbrev pub indices : ℕ → ℕ → List ℕ
indices i zero = []
indices i (suc n) = i ∷ indices (suc i) n

abbrev pub for_each :
    {E S A : Type 0} → (A → Action E S (Unit {0})) → List A → Action E S (Unit {0})
for_each f [] = pure tt
for_each f (x ∷ xs) = f x >> for_each f xs

abbrev pub collect : {E S A B : Type 0} → (A → Action E S B) → List A → Action E S (List B)
collect f [] = pure []
collect f (x ∷ xs) = f x >>= λ y. collect f xs >>= λ ys. pure (y ∷ ys)

-- Which result a code has that goes on to one.
pub next-done :
    {E S A B : Type 0} (r : Attempt E A × S) (f : A → Action E S B) (b : B) (s' : S)
    → next r f ≡ (done b, s')
    → (a : A) × (t : S) × (r ≡ (done a, t)) × (f a t ≡ (done b, s'))
next-done (done a, t) f b s' e = (a, t, refl, e)
next-done (failed x, t) f b s' e = absurd (cc)
next-done (panicked, t) f b s' e = absurd (cc)
