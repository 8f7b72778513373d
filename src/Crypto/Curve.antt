-- ===== src/Crypto/Curve.antt =====
-- What common/src uses of arkworks: a field of scalars, two groups with a pairing, the sampling of
-- scalars, and the hash to the curve. All of it is a parameter of the model.
use aptos_setup_ceremony.Base.{◌≡◌, Bool, true, ◌≢◌, List, [], ◌∷◌, map, length}

-- The operations. `Rng` is the state of a random number generator.
pub record Curve : Type 1 where
  pub Fr : Type 0
  pub G1 : Type 0
  pub G2 : Type 0
  pub Gt : Type 0
  pub Rng : Type 0
  pub one : Fr
  pub mul : Fr → Fr → Fr
  pub zero_g1 : G1
  pub add_g1 : G1 → G1 → G1
  pub mul_g1 : Fr → G1 → G1
  pub generator_g1 : G1
  pub eq_g1 : G1 → G1 → Bool
  pub neg_g2 : G2 → G2
  pub mul_g2 : Fr → G2 → G2
  pub generator_g2 : G2
  pub is_zero_g2 : G2 → Bool
  pub is_zero_gt : Gt → Bool
  pub multi_pairing : List G1 → List G2 → Gt
  pub msm : List G1 → List Fr → G1
  pub batch_mul : G1 → List Fr → List G1
  pub rand : Rng → Fr × Rng

module _ (C : Curve) where
  open C use {
    Fr, G1, G2, Gt, one, mul, zero_g1, add_g1, mul_g1, generator_g1, eq_g1, neg_g2, mul_g2,
    is_zero_g2, is_zero_gt, multi_pairing, msm, batch_mul,
  }

  -- The documented behaviour: the groups are modules over the scalars, the pairing is bilinear, a
  -- multipairing is a sum of pairings, and a multi-scalar multiplication a sum of multiples.
  pub record IsCurve : Type 0 where
    pub zero_gt : Gt
    pub add_gt : Gt → Gt → Gt
    pub mul_gt : Fr → Gt → Gt
    pub neg_gt : Gt → Gt
    pub pairing : G1 → G2 → Gt
    pub add_gt-assoc : (x y z : Gt) → add_gt (add_gt x y) z ≡ add_gt x (add_gt y z)
    pub add_gt-zero : (x : Gt) → add_gt x zero_gt ≡ x
    pub zero-add_gt : (x : Gt) → add_gt zero_gt x ≡ x
    pub neg-add_gt : (x : Gt) → add_gt (neg_gt x) x ≡ zero_gt
    pub add_gt-neg : (x : Gt) → add_gt x (neg_gt x) ≡ zero_gt
    pub mul_gt-zero : (a : Fr) → mul_gt a zero_gt ≡ zero_gt
    pub mul_gt-add : (a : Fr) (x y : Gt) → mul_gt a (add_gt x y) ≡ add_gt (mul_gt a x) (mul_gt a y)
    pub is_zero_gt-zero : is_zero_gt zero_gt ≡ true
    pub is_zero_gt_eq : (x : Gt) → is_zero_gt x ≡ true → x ≡ zero_gt
    -- Two different multiples of `y` that stand in for one sum: `y` is zero, as the scalars are a field.
    pub two_multiples :
        (x y : Gt) (a b : Fr)
        → a ≢ b
        → add_gt x (mul_gt a y) ≡ zero_gt
        → add_gt x (mul_gt b y) ≡ zero_gt
        → y ≡ zero_gt
    pub mul-comm : (a b : Fr) → mul a b ≡ mul b a
    pub mul_g1-mul : (a b : Fr) (p : G1) → mul_g1 (mul a b) p ≡ mul_g1 a (mul_g1 b p)
    pub mul_g1-one : (p : G1) → mul_g1 one p ≡ p
    pub mul_g1-zero : (a : Fr) → mul_g1 a zero_g1 ≡ zero_g1
    pub mul_g1-add : (a : Fr) (p q : G1) → mul_g1 a (add_g1 p q) ≡ add_g1 (mul_g1 a p) (mul_g1 a q)
    pub eq_g1-refl : (p : G1) → eq_g1 p p ≡ true
    pub mul_g2-mul : (a b : Fr) (q : G2) → mul_g2 (mul a b) q ≡ mul_g2 a (mul_g2 b q)
    pub mul_g2-one : (q : G2) → mul_g2 one q ≡ q
    pub pairing-mul_g1 :
        (a : Fr) (p : G1) (q : G2) → pairing (mul_g1 a p) q ≡ mul_gt a (pairing p q)
    pub pairing-mul_g2 :
        (a : Fr) (p : G1) (q : G2) → pairing p (mul_g2 a q) ≡ mul_gt a (pairing p q)
    pub pairing-neg_g2 : (p : G1) (q : G2) → pairing p (neg_g2 q) ≡ neg_gt (pairing p q)
    pub multi_pairing-nil : multi_pairing [] [] ≡ zero_gt
    pub multi_pairing-cons :
        (p : G1) (q : G2) (ps : List G1) (qs : List G2)
        → length ps ≡ length qs
        → multi_pairing (p ∷ ps) (q ∷ qs) ≡ add_gt (pairing p q) (multi_pairing ps qs)
    pub batch_mul-map : (p : G1) (cs : List Fr) → batch_mul p cs ≡ map (λ c. mul_g1 c p) cs
    pub msm-nil : msm [] [] ≡ zero_g1
    pub msm-cons :
        (p : G1) (a : Fr) (ps : List G1) (cs : List Fr)
        → length ps ≡ length cs
        → msm (p ∷ ps) (a ∷ cs) ≡ add_g1 (mul_g1 a p) (msm ps cs)
