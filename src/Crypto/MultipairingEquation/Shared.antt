-- ===== src/Crypto/MultipairingEquation/Shared.antt =====
-- Batches over pairs of points with one ratio: `with_shared_g2s` of
-- common/src/multipairing_equation.rs, as the verifications call it.
use aptos_setup_ceremony.Base.{
  ℕ, zero, suc, ◌≡◌, refl, sym, ap, ◌∙◌, some, List, [], ◌∷◌, map, length, length-map,
}
use aptos_setup_ceremony.Crypto.Attempt.{done}
use aptos_setup_ceremony.Crypto.Curve.{Curve, IsCurve}
use aptos_setup_ceremony.Crypto.MultipairingEquation.{
  MultipairingEquation, simple, column, combined, rands, with_shared_g2s,
}
use aptos_setup_ceremony.Crypto.MultipairingEquation.Laws.{Holds, msm-mul_g1}
use aptos_setup_ceremony.Crypto.BlsSok.{multi_pairing-two}

module _ (C : Curve) where
  open C use {Fr, G1, G2, Rng, mul_g1, mul_g2, neg_g2, msm}

  -- The vectors of two points that stand for pairs.
  abbrev pub vectors : List (G1 × G1) → List (List G1)
  vectors xs = map (λ p. p.0 ∷ p.1 ∷ []) xs

  abbrev pub firsts : List (G1 × G1) → List G1
  firsts xs = map (λ p. p.0) xs

  abbrev pub seconds : List (G1 × G1) → List G1
  seconds xs = map (λ p. p.1) xs

  column-first : (xs : List (G1 × G1)) → column C 0 (vectors xs) ≡ some (firsts xs)
  unfolding column
  column-first [] = refl
  column-first (x ∷ xs) = rw (column-first xs) refl

  column-second : (xs : List (G1 × G1)) → column C 1 (vectors xs) ≡ some (seconds xs)
  unfolding column
  column-second [] = refl
  column-second (x ∷ xs) = rw (column-second xs) refl

  rands-length : (n : ℕ) (rng : Rng) → length (rands C n rng).0 ≡ n
  unfolding rands
  rands-length zero rng = refl
  rands-length (suc n) rng = ap suc (rands-length n (C.rand rng).1)

  -- The batch of pairs is an equation of two pairs.
  pub with_shared_g2s-pairs :
      {E : Type 0} (rng : Rng) (x : G1 × G1) (xs : List (G1 × G1)) (g2s : List G2)
      → let cs = (rands C (length (vectors (x ∷ xs))) rng).0 in
        with_shared_g2s C {E = E} rng (vectors (x ∷ xs)) g2s
        ≡ done (
          simple C (msm (firsts (x ∷ xs)) cs ∷ msm (seconds (x ∷ xs)) cs ∷ []) g2s,
          (rands C (length (vectors (x ∷ xs))) rng).1,
        )
  unfolding with_shared_g2s combined
  with_shared_g2s-pairs rng x xs g2s = rw (column, column-first xs, column-second xs) refl

  module _ (L : IsCurve C) where
    ratio :
        (t : Fr) (base : G2) (p : G1)
        → L.add_gt (L.pairing (mul_g1 t p) base) (L.pairing p (neg_g2 (mul_g2 t base))) ≡ L.zero_gt
    ratio t base p =
        ap (λ x. L.add_gt x (L.pairing p (neg_g2 (mul_g2 t base))))
          (L.pairing-mul_g1 t p base ∙ sym (L.pairing-mul_g2 t p base))
        ∙ ap (L.add_gt (L.pairing p (mul_g2 t base))) (L.pairing-neg_g2 p (mul_g2 t base))
        ∙ L.add_gt-neg (L.pairing p (mul_g2 t base))

    -- Where each first point is the multiple by `t` of its second one, the batch against `base` and
    -- the negated multiple of `base` by `t` holds.
    pub with_shared_g2s-Holds :
        {E : Type 0} (rng : Rng) (t : Fr) (base : G2) (x : G1 × G1) (xs : List (G1 × G1))
        → firsts (x ∷ xs) ≡ map (λ p. mul_g1 t p) (seconds (x ∷ xs))
        → (r : MultipairingEquation C × Rng) × (with_shared_g2s C {E = E} rng
              (vectors (x ∷ xs))
              (base ∷ neg_g2 (mul_g2 t base) ∷ [])
            ≡ done r)
          × Holds C L r.0
    with_shared_g2s-Holds rng t base x xs e =
        let cs = (rands C (length (vectors (x ∷ xs))) rng).0 in
        let low = msm (seconds (x ∷ xs)) cs in
        let sizes : length (seconds (x ∷ xs)) ≡ length cs =
          length-map (x ∷ xs) _
          ∙ sym (length-map (x ∷ xs) _)
          ∙ sym (rands-length (length (vectors (x ∷ xs))) rng) in
        let high : msm (firsts (x ∷ xs)) cs ≡ mul_g1 t low =
          ap (λ ps. msm ps cs) e ∙ msm-mul_g1 C L t (seconds (x ∷ xs)) cs sizes in
        (
          _,
          with_shared_g2s-pairs rng x xs (base ∷ neg_g2 (mul_g2 t base) ∷ []),
          (refl, rw high (multi_pairing-two C L (mul_g1 t low) low base _) ∙ ratio t base low),
        )
