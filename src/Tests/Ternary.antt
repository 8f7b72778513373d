-- ===== src/Tests/Ternary.antt =====
-- A small pairing: the field of three elements as scalars and as all three groups, with the product
-- as the pairing. It shows that what is asked of the curve can hold.
use aptos_setup_ceremony.Base.{◌≡◌, refl, ap, Bool, true, false, List, [], ◌∷◌, map, arith}
use aptos_setup_ceremony.Crypto.Curve.{Curve, IsCurve}

pub data Trit : Type 0 where
  nil unit minus : Trit

abbrev plus : Trit → Trit → Trit
plus nil y = y
plus unit nil = unit
plus unit unit = minus
plus unit minus = nil
plus minus nil = minus
plus minus unit = nil
plus minus minus = unit

abbrev negate : Trit → Trit
negate nil = nil
negate unit = minus
negate minus = unit

abbrev times : Trit → Trit → Trit
times nil y = nil
times unit y = y
times minus y = negate y

abbrev is_nil : Trit → Bool
is_nil nil = true
is_nil _ = false

abbrev same : Trit → Trit → Bool
same nil nil = true
same unit unit = true
same minus minus = true
same _ _ = false

abbrev products : List Trit → List Trit → Trit
products (x ∷ xs) (y ∷ ys) = plus (times x y) (products xs ys)
products _ _ = nil

abbrev multiples : List Trit → List Trit → Trit
multiples (x ∷ xs) (y ∷ ys) = plus (times y x) (multiples xs ys)
multiples _ _ = nil

abbrev each : Trit → List Trit → List Trit
each x [] = []
each x (y ∷ ys) = times y x ∷ each x ys

-- The generator of random numbers draws its own state.
abbrev pub ternary : Curve
ternary = record {
  Fr = Trit;
  G1 = Trit;
  G2 = Trit;
  Gt = Trit;
  Rng = Trit;
  one = unit;
  mul = times;
  zero_g1 = nil;
  add_g1 = plus;
  mul_g1 = times;
  generator_g1 = unit;
  eq_g1 = same;
  neg_g2 = negate;
  mul_g2 = times;
  generator_g2 = unit;
  is_zero_g2 = is_nil;
  is_zero_gt = is_nil;
  multi_pairing = products;
  msm = multiples;
  batch_mul = each;
  rand = λ rng. (rng, rng);
}

each-map : (x : Trit) (ys : List Trit) → each x ys ≡ map (λ y. times y x) ys
each-map x [] = refl
each-map x (y ∷ ys) = ap (λ zs. times y x ∷ zs) (each-map x ys)

pub ternary-IsCurve : IsCurve ternary
ternary-IsCurve = record {
  zero_gt = nil;
  add_gt = plus;
  mul_gt = times;
  neg_gt = negate;
  pairing = times;
  add_gt-assoc = λ x y z. ground arith;
  add_gt-zero = λ x. ground arith;
  zero-add_gt = λ x. ground arith;
  neg-add_gt = λ x. ground arith;
  add_gt-neg = λ x. ground arith;
  mul_gt-zero = λ x. ground arith;
  mul_gt-add = λ x y z. ground arith;
  is_zero_gt-zero = refl;
  is_zero_gt_eq = λ x h. ground arith;
  two_multiples = λ x y a b d h k. ground arith;
  mul-comm = λ x y. ground arith;
  mul_g1-mul = λ x y z. ground arith;
  mul_g1-one = λ x. ground arith;
  mul_g1-zero = λ x. ground arith;
  mul_g1-add = λ x y z. ground arith;
  eq_g1-refl = λ x. ground arith;
  mul_g2-mul = λ x y z. ground arith;
  mul_g2-one = λ x. ground arith;
  pairing-mul_g1 = λ x y z. ground arith;
  pairing-mul_g2 = λ x y z. ground arith;
  pairing-neg_g2 = λ x y. ground arith;
  multi_pairing-nil = refl;
  multi_pairing-cons = λ p q ps qs e. refl;
  batch_mul-map = each-map;
  msm-nil = refl;
  msm-cons = λ p q ps qs e. refl;
}
