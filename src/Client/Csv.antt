-- ===== src/Client/Csv.antt =====
-- The file of the key pairs: client/src/csv.rs, and the command of client/src/run.rs that fills it.
-- A file is its records, with the header first; the syntax of CSV is left out. Hexadecimal texts and
-- the making of keys are a parameter.
pub mod RoundTrip
use text.Mathlib.Text.{◌==◌}
use aptos_setup_ceremony.Base.{String, not, Option, none, some, List, [], ◌∷◌, if◌then◌else◌}
use aptos_setup_ceremony.Contributor.{Contributor}
use aptos_setup_ceremony.Crypto.Attempt.{Attempt, done, failed, panicked, ◌>>=◌}

pub data CsvError : Type 0 where
  could_not_parse bad_keypair name_mismatch email_mismatch : CsvError
  no_keypair_yet hex_failed : CsvError

-- `as_hex`, `from_hex` and `Contributor::new` of common/src/contribution.rs, on key pairs.
pub record Keys : Type 1 where
  pub SigningKey : Type 0
  pub Rng : Type 0
  pub as_hex : SigningKey × Contributor → Option String
  pub from_hex : String → Option (SigningKey × Contributor)
  pub fresh : String → String → Rng → (SigningKey × Contributor) × Rng

abbrev pub File : Type 0
File = List (List String)

module _ (K : Keys) where
  open K use {SigningKey, Rng, as_hex, from_hex, fresh}

  pub data KeypairsRow : Type 0 where
    no_keypair : String → String → KeypairsRow
    has_keypair : SigningKey × Contributor → KeypairsRow

  unfoldable pub must_have_keypair : KeypairsRow → Attempt CsvError (SigningKey × Contributor)
  must_have_keypair (has_keypair keypair) = done keypair
  must_have_keypair (no_keypair name email) = failed no_keypair_yet

  unfoldable pub add_keypair_if_needed : KeypairsRow → Rng → (SigningKey × Contributor) × Rng
  add_keypair_if_needed (has_keypair keypair) rng = (keypair, rng)
  add_keypair_if_needed (no_keypair name email) rng = fresh name email rng

  -- The third column, under a name and an email.
  unfoldable pub read_keypair : String → String → String → Attempt CsvError KeypairsRow
  read_keypair name email keypair_hex = elim (from_hex keypair_hex) [
    | none ↦ failed bad_keypair
    | some keypair ↦
        if not (name == keypair.1.name)
        then failed name_mismatch
        else if not (email == keypair.1.email)
        then failed email_mismatch
        else done (has_keypair keypair)
  ]

  -- One record. Columns past the third are not read.
  unfoldable pub read_record : List String → Attempt CsvError KeypairsRow
  unfolding read_keypair
  read_record [] = failed could_not_parse
  read_record (name ∷ []) = failed could_not_parse
  read_record (name ∷ email ∷ []) = done (no_keypair name email)
  read_record (name ∷ email ∷ keypair_hex ∷ rest) = read_keypair name email keypair_hex

  unfoldable pub read_records : File → Attempt CsvError (List KeypairsRow)
  unfolding read_record
  read_records [] = done []
  read_records (columns ∷ records) =
      read_record columns >>= λ row. read_records records >>= λ rows. done (row ∷ rows)

  -- The first record is taken for the header.
  unfoldable pub read_keypairs_file : File → Attempt CsvError (List KeypairsRow)
  unfolding read_records
  read_keypairs_file [] = done []
  read_keypairs_file (header ∷ records) = read_records records

  -- The result with what is in the file then: an error leaves the records before it.
  unfoldable pub write_records :
      List (SigningKey × Contributor) → Attempt CsvError (Unit {0}) × File
  write_records [] = (done tt, [])
  write_records (keypair ∷ keypairs) =
      let rest = write_records keypairs in
      elim (as_hex keypair) [
        | none ↦ (failed hex_failed, [])
        | some hex ↦ (rest.0, (keypair.1.name ∷ keypair.1.email ∷ hex ∷ []) ∷ rest.1)
      ]

  unfoldable pub write_keypairs_file :
      List (SigningKey × Contributor) → Attempt CsvError (Unit {0}) × File
  unfolding write_records
  write_keypairs_file keypairs =
      let r = write_records keypairs in (r.0, ("Name" ∷ "Email" ∷ "Keypair" ∷ []) ∷ r.1)

  -- `map` over the rows, with the generator handed on.
  unfoldable pub add_keypairs : List KeypairsRow → Rng → List (SigningKey × Contributor)
  unfolding add_keypair_if_needed
  add_keypairs [] rng = []
  add_keypairs (row ∷ rows) rng =
      let r = add_keypair_if_needed row rng in r.0 ∷ add_keypairs rows r.1

  -- `AdminCommand::GenerateAllKeypairs`, with the file at its end.
  unfoldable pub generate_all_keypairs : Rng → File → Attempt CsvError (Unit {0}) × File
  unfolding read_keypairs_file write_keypairs_file add_keypairs
  generate_all_keypairs rng file = elim (read_keypairs_file file) [
    | done rows ↦ write_keypairs_file (add_keypairs rows rng)
    | failed e ↦ (failed e, file)
    | panicked ↦ (panicked, file)
  ]

  -- The key pairs that `AdminCommand::RegisterAll` registers.
  unfoldable pub all_keypairs :
      List KeypairsRow → Attempt CsvError (List (SigningKey × Contributor))
  unfolding must_have_keypair
  all_keypairs [] = done []
  all_keypairs (row ∷ rows) =
      must_have_keypair row >>= λ keypair. all_keypairs rows >>= λ rest. done (keypair ∷ rest)
