-- ===== src/Crypto/BlsSok.antt =====
-- A signature of knowledge of a scalar, with a base point of choice: common/src/bls_sok.rs.
-- `hash_point` is the hash to the curve of the BCS encoding of a message, a parameter.
use aptos_setup_ceremony.Base.{◌≡◌, refl, ap, sym, ◌∙◌, [], ◌∷◌}
use aptos_setup_ceremony.Crypto.Curve.{Curve, IsCurve}
use aptos_setup_ceremony.Crypto.MultipairingEquation.{MultipairingEquation, simple}
use aptos_setup_ceremony.Crypto.MultipairingEquation.Laws.{Holds}

module _ (C : Curve) where
  open C use {Fr, G1, G2, mul_g1, neg_g2, mul_g2, multi_pairing}

  pub record BlsSok : Type 0 where
    pub sig : G1

  module _ (L : IsCurve C) where
    open L use {zero_gt, add_gt, mul_gt, neg_gt, pairing}

    -- A multipairing of two pairs.
    pub multi_pairing-two :
        (p p' : G1) (q q' : G2)
        → multi_pairing (p ∷ p' ∷ []) (q ∷ q' ∷ []) ≡ add_gt (pairing p q) (pairing p' q')
    multi_pairing-two p p' q q' =
        L.multi_pairing-cons p q (p' ∷ []) (q' ∷ []) refl
        ∙ ap (add_gt (pairing p q)) (
            L.multi_pairing-cons p' q' [] [] refl
            ∙ ap (add_gt (pairing p' q')) L.multi_pairing-nil
            ∙ L.add_gt-zero (pairing p' q'))

    -- Two points with the ratio `t` pair to zero with a base and its multiple by `t`.
    pub opposite :
        (t : Fr) (p : G1) (q : G2)
        → add_gt (pairing p (mul_g2 t q)) (pairing (mul_g1 t p) (neg_g2 q)) ≡ zero_gt
    opposite t p q =
        ap (add_gt (pairing p (mul_g2 t q))) (
          L.pairing-neg_g2 (mul_g1 t p) q
          ∙ ap neg_gt (L.pairing-mul_g1 t p q ∙ sym (L.pairing-mul_g2 t p q)))
        ∙ L.add_gt-neg (pairing p (mul_g2 t q))

  module _ {M : Type 0} (hash_point : M → G1) where
    unfoldable pub sign : Fr → M → BlsSok
    sign secret_scalar msg = record { sig = mul_g1 secret_scalar (hash_point msg) }

    unfoldable pub verify : BlsSok → G2 → G2 → M → MultipairingEquation C
    verify self base_point verification_key msg =
        simple C (hash_point msg ∷ self.sig ∷ []) (verification_key ∷ neg_g2 base_point ∷ [])

    module _ (L : IsCurve C) where
      -- The signature by a scalar passes with the base point and its multiple by that scalar.
      pub sign-verify :
          (secret_scalar : Fr) (base_point : G2) (msg : M)
          → Holds C L
              (verify (sign secret_scalar msg) base_point (mul_g2 secret_scalar base_point) msg)
      unfolding sign verify
      sign-verify secret_scalar base_point msg = (
        refl,
        multi_pairing-two L (hash_point msg) (mul_g1 secret_scalar (hash_point msg))
              (mul_g2 secret_scalar base_point) (neg_g2 base_point)
            ∙ opposite L secret_scalar (hash_point msg) base_point,
      )
