-- ===== src/Client/Csv/RoundTrip.antt =====
-- Key pairs that are written are read back, and are not replaced: client/src/csv.rs and
-- client/src/run.rs.
use aptos_setup_ceremony.Base.{◌≡◌, String, some, List, [], ◌∷◌}
use aptos_setup_ceremony.Contributor.{Contributor}
use aptos_setup_ceremony.Client.Csv.{Keys}

module _ (K : Keys) where
  open K use {SigningKey, Rng}

  -- Every key pair of the list has a hexadecimal text, which stands for it.
  abbrev pub AllHex : List (SigningKey × Contributor) → Type 0
  AllHex [] = Unit {0}
  AllHex (k ∷ ks) =
      ((hex : String) × (K.as_hex k ≡ some hex) × (K.from_hex hex ≡ some k)) × AllHex ks
