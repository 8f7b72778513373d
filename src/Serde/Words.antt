-- ===== src/Serde/Words.antt =====
-- Numbers as bytes, the lowest first: `to_le_bytes` and `from_le_bytes`, as
-- common/src/parallel_ark_serde.rs uses them on u64.
use aptos_setup_ceremony.Base.{
  ℕ, zero, suc, ◌+◌, ◌*◌, ◌/◌, ◌%◌, ◌^◌, ◌<◌, ◌≡◌, refl, ap, List, [], ◌∷◌, length, arith,
}

unfoldable pub to_le_bytes : ℕ → ℕ → List ℕ
to_le_bytes zero n = []
to_le_bytes (suc k) n = (n % 256) ∷ to_le_bytes k (n / 256)

unfoldable pub from_le_bytes : List ℕ → ℕ
from_le_bytes [] = 0
from_le_bytes (b ∷ bytes) = b + 256 * from_le_bytes bytes

pub to_le_bytes-length : (k n : ℕ) → length (to_le_bytes k n) ≡ k
unfolding to_le_bytes
to_le_bytes-length zero n = refl
to_le_bytes-length (suc k) n = ap suc (to_le_bytes-length k (n / 256))

-- `256 ^ k`
unfoldable pub limit : ℕ → ℕ
limit zero = 1
limit (suc k) = 256 * limit k

pub limit_eight : limit 8 ≡ 2 ^ 64
unfolding limit
limit_eight = refl

pub from_le_bytes-to_le_bytes : (k n : ℕ) → n < limit k → from_le_bytes (to_le_bytes k n) ≡ n
unfolding to_le_bytes from_le_bytes limit
from_le_bytes-to_le_bytes zero n h = omega arith
from_le_bytes-to_le_bytes (suc k) n h =
    let ih = from_le_bytes-to_le_bytes k (n / 256) (omega arith) in omega arith
