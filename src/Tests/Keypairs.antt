-- ===== src/Tests/Keypairs.antt =====
-- The file of the key pairs at a concrete input: Alice without a key pair.
use text.Mathlib.Text.{◌==◌}
use aptos_setup_ceremony.Base.{ℕ, none, some, List, [], ◌∷◌, if◌then◌else◌}
use aptos_setup_ceremony.Client.Csv.{Keys, File, KeypairsRow, no_keypair}
use aptos_setup_ceremony.Tests.Ceremony.{alice}

-- The only key pair there is is Alice's.
abbrev keys : Keys
keys = record {
  SigningKey = ℕ;
  Rng = ℕ;
  as_hex = λ k. some "a11ce";
  from_hex = λ hex. if hex == "a11ce" then some (70, alice) else none;
  fresh = λ name email rng. ((70, alice), rng);
}

abbrev unkeyed : File
unkeyed = ("Name" ∷ "Email" ∷ []) ∷ ("Alice" ∷ "alice@example.org" ∷ []) ∷ []

abbrev unkeyed_rows : List (KeypairsRow keys)
unkeyed_rows = no_keypair "Alice" "alice@example.org" ∷ []
