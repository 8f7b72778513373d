-- ===== src/Crypto/MultipairingEquation/Laws.antt =====
-- What batching does to the value of an equation: common/src/multipairing_equation.rs.
use aptos_setup_ceremony.Base.{
  ◌≡◌, ◌≢◌, refl, sym, ap, ◌∙◌, arith, List, [], ◌∷◌, ◌++◌, map, length, length-map, length-append,
  ◌+◌,
}
use aptos_setup_ceremony.Crypto.Attempt.{done}
use aptos_setup_ceremony.Crypto.Curve.{Curve, IsCurve}
use aptos_setup_ceremony.Crypto.MultipairingEquation.{
  MultipairingEquation, zip, scalar_mul, combine, equals_zero, rands, scaled_pairs, compact,
}

module _ (C : Curve) (L : IsCurve C) where
  open C use {Fr, G1, G2, Gt, Rng, mul, mul_g1, multi_pairing, msm, rand}
  open L use {zero_gt, add_gt, mul_gt, pairing}

  abbrev pub value : MultipairingEquation C → Gt
  value eq = multi_pairing eq.g1s eq.g2s

  -- An equation with one point of the second group for each of the first.
  abbrev pub IsBalanced : MultipairingEquation C → Type 0
  IsBalanced eq = length eq.g1s ≡ length eq.g2s

  -- An equation that holds.
  abbrev pub Holds : MultipairingEquation C → Type 0
  Holds eq = IsBalanced eq × (value eq ≡ zero_gt)

  multi_pairing-mul_g1 :
      (a : Fr) (ps : List G1) (qs : List G2)
      → length ps ≡ length qs
      → multi_pairing (map (λ p. mul_g1 a p) ps) qs ≡ mul_gt a (multi_pairing ps qs)
  multi_pairing-mul_g1 a [] [] e = rw (L.multi_pairing-nil, L.mul_gt-zero a) refl
  multi_pairing-mul_g1 a [] (q ∷ qs) e = absurd (omega arith)
  multi_pairing-mul_g1 a (p ∷ ps) [] e = absurd (omega arith)
  multi_pairing-mul_g1 a (p ∷ ps) (q ∷ qs) e =
      let e' : length ps ≡ length qs = omega arith in
      L.multi_pairing-cons (mul_g1 a p) q (map (λ p. mul_g1 a p) ps) qs (length-map ps _ ∙ e')
      ∙ ap (λ x. add_gt x (multi_pairing (map (λ p. mul_g1 a p) ps) qs)) (L.pairing-mul_g1 a p q)
      ∙ ap (add_gt (mul_gt a (pairing p q))) (multi_pairing-mul_g1 a ps qs e')
      ∙ sym (L.mul_gt-add a (pairing p q) (multi_pairing ps qs))
      ∙ ap (mul_gt a) (sym (L.multi_pairing-cons p q ps qs e'))

  multi_pairing-append :
      (ps ps' : List G1) (qs qs' : List G2)
      → length ps ≡ length qs
      → length ps' ≡ length qs'
      → multi_pairing (ps ++ ps') (qs ++ qs') ≡ add_gt (multi_pairing ps qs) (multi_pairing ps' qs')
  multi_pairing-append [] ps' [] qs' e e' = rw L.multi_pairing-nil (sym (L.zero-add_gt _))
  multi_pairing-append [] ps' (q ∷ qs) qs' e e' = absurd (omega arith)
  multi_pairing-append (p ∷ ps) ps' [] qs' e e' = absurd (omega arith)
  multi_pairing-append (p ∷ ps) ps' (q ∷ qs) qs' e e' =
      let f : length ps ≡ length qs = omega arith in
      L.multi_pairing-cons p q (ps ++ ps') (qs ++ qs')
        (length-append ps ps' ∙ (omega arith) ∙ sym (length-append qs qs'))
      ∙ ap (add_gt (pairing p q)) (multi_pairing-append ps ps' qs qs' f e')
      ∙ sym (L.add_gt-assoc (pairing p q) (multi_pairing ps qs) (multi_pairing ps' qs'))
      ∙ ap (λ x. add_gt x (multi_pairing ps' qs')) (sym (L.multi_pairing-cons p q ps qs f))

  -- The value of a combination: the first equation's, and a random multiple of the second's.
  pub value-combine :
      (rng : Rng) (self other : MultipairingEquation C)
      → IsBalanced self
      → IsBalanced other
      → IsBalanced (combine C rng self other).0
        × (value (combine C rng self other).0
            ≡ add_gt (value self) (mul_gt (rand rng).0 (value other)))
  unfolding combine scalar_mul
  value-combine rng self other b b' = (
    length-append self.g1s _
        ∙ ap (λ n. length self.g1s + n) (length-map other.g1s _)
        ∙ (omega arith)
        ∙ sym (length-append self.g2s other.g2s),
    multi_pairing-append self.g1s _ self.g2s other.g2s b (length-map other.g1s _ ∙ b')
        ∙ ap (add_gt (value self)) (multi_pairing-mul_g1 (rand rng).0 other.g1s other.g2s b'),
  )

  -- The combination of two equations that hold holds, whatever scalar is drawn.
  pub combine-Holds :
      (rng : Rng) (self other : MultipairingEquation C)
      → Holds self
      → Holds other
      → Holds (combine C rng self other).0
  combine-Holds rng self other (b, z) (b', z') =
      let (balanced, v) = value-combine rng self other b b' in
      (balanced, v ∙ rw (z, z', L.mul_gt-zero (rand rng).0) (L.add_gt-zero zero_gt))

  equals_zero-value :
      (eq : MultipairingEquation C) → equals_zero C eq ≡ done tt → value eq ≡ zero_gt
  unfolding equals_zero
  equals_zero-value eq h = L.is_zero_gt_eq (value eq) (ground arith)

  pub Holds-equals_zero : (eq : MultipairingEquation C) → Holds eq → equals_zero C eq ≡ done tt
  unfolding equals_zero
  Holds-equals_zero eq (b, z) = rw (z, L.is_zero_gt-zero) refl

  -- Two balanced equations whose combinations are zero for two draws of different scalars are zero.
  pub combine_sound :
      (rng rng' : Rng) (self other : MultipairingEquation C)
      → IsBalanced self
      → IsBalanced other
      → (rand rng).0 ≢ (rand rng').0
      → equals_zero C (combine C rng self other).0 ≡ done tt
      → equals_zero C (combine C rng' self other).0 ≡ done tt
      → (equals_zero C self ≡ done tt) × (equals_zero C other ≡ done tt)
  combine_sound rng rng' self other b b' d h h' =
      let v = sym (value-combine rng self other b b').1 ∙ equals_zero-value _ h in
      let v' = sym (value-combine rng' self other b b').1 ∙ equals_zero-value _ h' in
      let z' = L.two_multiples (value self) (value other) _ _ d v v' in
      let z : value self ≡ zero_gt =
        sym (L.add_gt-zero (value self))
        ∙ ap (add_gt (value self)) (sym (ap (mul_gt _) z' ∙ L.mul_gt-zero (rand rng).0))
        ∙ v in
      (Holds-equals_zero self (b, z), Holds-equals_zero other (b', z'))

  abbrev pub AllHold : List (MultipairingEquation C) → Type 0
  AllHold [] = Unit {0}
  AllHold (eq ∷ eqs) = Holds eq × AllHold eqs

  unzip : (xs : List (G1 × G2)) → length (map (λ p. p.0) xs) ≡ length (map (λ p. p.1) xs)
  unzip xs = length-map xs _ ∙ sym (length-map xs _)

  zip-firsts :
      (ps : List G1) (qs : List G2)
      → length ps ≡ length qs
      → (rest : List (G1 × G2))
      → (map (λ p. p.0) (zip ps qs ++ rest) ≡ ps ++ map (λ p. p.0) rest)
        × (map (λ p. p.1) (zip ps qs ++ rest) ≡ qs ++ map (λ p. p.1) rest)
  zip-firsts [] [] e rest = (refl, refl)
  zip-firsts [] (q ∷ qs) e rest = absurd (omega arith)
  zip-firsts (p ∷ ps) [] e rest = absurd (omega arith)
  zip-firsts (p ∷ ps) (q ∷ qs) e rest =
      let (f, g) = zip-firsts ps qs (omega arith) rest in (ap (λ t. p ∷ t) f, ap (λ t. q ∷ t) g)

  abbrev pub AllBalanced : List (MultipairingEquation C) → Type 0
  AllBalanced [] = Unit {0}
  AllBalanced (eq ∷ eqs) = IsBalanced eq × AllBalanced eqs

  -- The sum of the equations' values, each with a scalar of its own, drawn one after the other.
  abbrev pub weighted : Rng → List (MultipairingEquation C) → Gt
  weighted rng [] = zero_gt
  weighted rng (eq ∷ eqs) = add_gt (mul_gt (rand rng).0 (value eq)) (weighted (rand rng).1 eqs)

  scaled_pairs-value :
      (rng : Rng) (eqs : List (MultipairingEquation C))
      → AllBalanced eqs
      → let pairs = scaled_pairs C eqs (rands C (length eqs) rng).0 in
        multi_pairing (map (λ p. p.0) pairs) (map (λ p. p.1) pairs) ≡ weighted rng eqs
  unfolding scaled_pairs scalar_mul rands
  scaled_pairs-value rng [] h = L.multi_pairing-nil
  scaled_pairs-value rng (eq ∷ eqs) (b, h) =
      let (a, rng') = rand rng in
      let rest = scaled_pairs C eqs (rands C (length eqs) rng').0 in
      let scaled = map (λ p. mul_g1 a p) eq.g1s in
      let others = multi_pairing (map (λ p. p.0) rest) (map (λ p. p.1) rest) in
      let b' : length scaled ≡ length eq.g2s = length-map eq.g1s _ ∙ b in
      let (f, g) = zip-firsts scaled eq.g2s b' rest in
      rw (f, g)
        (multi_pairing-append scaled (map (λ p. p.0) rest) eq.g2s (map (λ p. p.1) rest) b'
            (unzip rest)
          ∙ ap (λ x. add_gt x others) (multi_pairing-mul_g1 a eq.g1s eq.g2s b)
          ∙ ap (add_gt (mul_gt a (value eq))) (scaled_pairs-value rng' eqs h))

  -- The batch of balanced equations is balanced, and its value is a random combination of theirs: the
  -- value of each equation enters with a scalar of its own, the next that the generator draws.
  pub compact-value :
      (rng : Rng) (eqs : List (MultipairingEquation C))
      → AllBalanced eqs
      → IsBalanced (compact C rng eqs).0 × (value (compact C rng eqs).0 ≡ weighted rng eqs)
  unfolding compact
  compact-value rng eqs h =
      (unzip (scaled_pairs C eqs (rands C (length eqs) rng).0), scaled_pairs-value rng eqs h)

  AllHold-weighted :
      (rng : Rng) (eqs : List (MultipairingEquation C))
      → AllHold eqs
      → AllBalanced eqs × (weighted rng eqs ≡ zero_gt)
  AllHold-weighted rng [] h = (tt, refl)
  AllHold-weighted rng (eq ∷ eqs) ((b, z), h) =
      let (balanced, sum) = AllHold-weighted (rand rng).1 eqs h in
      (
        (b, balanced),
        ap (λ x. add_gt (mul_gt (rand rng).0 x) (weighted (rand rng).1 eqs)) z
            ∙ rw (L.mul_gt-zero (rand rng).0, sum) (L.add_gt-zero zero_gt),
      )

  pub compact-Holds :
      (rng : Rng) (eqs : List (MultipairingEquation C)) → AllHold eqs → Holds (compact C rng eqs).0
  compact-Holds rng eqs h =
      let (balanced, sum) = AllHold-weighted rng eqs h in
      let (b, v) = compact-value rng eqs balanced in (b, v ∙ sum)

  -- A multi-scalar multiplication of multiples.
  pub msm-mul_g1 :
      (t : Fr) (ps : List G1) (cs : List Fr)
      → length ps ≡ length cs
      → msm (map (λ p. mul_g1 t p) ps) cs ≡ mul_g1 t (msm ps cs)
  msm-mul_g1 t [] [] e = rw (L.msm-nil, L.mul_g1-zero t) refl
  msm-mul_g1 t [] (c ∷ cs) e = absurd (omega arith)
  msm-mul_g1 t (p ∷ ps) [] e = absurd (omega arith)
  msm-mul_g1 t (p ∷ ps) (c ∷ cs) e =
      let e' : length ps ≡ length cs = omega arith in
      L.msm-cons (mul_g1 t p) c _ cs (length-map ps _ ∙ e')
      ∙ ap (λ x. C.add_g1 x (msm (map (λ p. mul_g1 t p) ps) cs))
          (sym (L.mul_g1-mul c t p) ∙ ap (λ x. mul_g1 x p) (L.mul-comm c t) ∙ L.mul_g1-mul t c p)
      ∙ ap (C.add_g1 (mul_g1 t (mul_g1 c p))) (msm-mul_g1 t ps cs e')
      ∙ sym (L.mul_g1-add t (mul_g1 c p) (msm ps cs))
      ∙ ap (mul_g1 t) (sym (L.msm-cons p c ps cs e'))
