-- ===== src/Server/Store/Db.antt =====
-- The queries of `ContributorsDB`: server/src/store/contributors_db/mod.rs.
-- A statement runs to its end; the failures modelled are those that the table decides: a missing
-- row, a second row with one primary key, no current contributor.
use aptos_setup_ceremony.Base.{
  ℕ, Bool, true, false, ◌&&◌, Option, none, some, List, [], ◌∷◌, ◌++◌, map, ltb, ◌==◌,
  if◌then◌else◌, head?, count, keep,
}
use aptos_setup_ceremony.Contributor.{Contributor}
use aptos_setup_ceremony.Server.Error.{
  KickedError, contributor_not_found, already_registered, no_current_contributor, Outcome, ok, err,
  from_error,
}
use aptos_setup_ceremony.Server.Store.OrderBy.{order_by}
use aptos_setup_ceremony.Server.Store.Row.{
  ContributorRow, ContributorStatus, queued, contributor, new, Table, mark_finished_verify,
  mark_kicked,
}

-- Equality of texts in the status column.
abbrev pub is_queued : ContributorRow → Bool
is_queued r = elim r.status [ queued ↦ true | _ ↦ false ]

abbrev pub is_finished : ContributorRow → Bool
is_finished r = elim r.status [ ContributorStatus.finished ↦ true | _ ↦ false ]

-- `a < b` on a nullable column, as a WHERE clause reads it: with a NULL it does not hold.
abbrev pub sql_lt : Option ℕ → Option ℕ → Bool
sql_lt (some a) (some b) = ltb a b
sql_lt _ _ = false

-- `a` stands before `b` in ORDER BY ... ASC, where NULLs come first.
abbrev pub order_lt : Option ℕ → Option ℕ → Bool
order_lt none (some b) = true
order_lt (some a) (some b) = ltb a b
order_lt _ none = false

-- The column `pos` of `select_with_pos`.
unfoldable pub pos_of : Table → ContributorRow → ℕ
pos_of db r =
    if is_queued r then count (λ c2. is_queued c2 && sql_lt c2.joined_at r.joined_at) db else 0

unfoldable pub find_key : ℕ → Table → Option ContributorRow
find_key key [] = none
find_key key (r ∷ rs) = if r.verifying_key == key then some r else find_key key rs

-- INSERT: the key is the primary key of the table.
unfoldable pub register : ℕ → Contributor → Table → Outcome Table
unfolding find_key new
register now c db = elim (find_key c.verifying_key db) [
  | some _ ↦ err (from_error already_registered)
  | none ↦ ok (db ++ new now c ∷ [])
]

unfoldable pub get_contributors : Table → List (ℕ × ContributorRow)
unfolding pos_of
get_contributors db = map (λ r. (pos_of db r, r)) db

unfoldable pub get_with_pos : Contributor → Table → Outcome (ℕ × ContributorRow)
unfolding find_key
get_with_pos c db = elim (find_key c.verifying_key db) [
  | none ↦ err (from_error contributor_not_found)
  | some r ↦ ok (pos_of db r, r)
]

unfoldable pub get_finished_contributors : Table → Table
unfolding order_by
get_finished_contributors db =
    order_by (λ a b. order_lt a.finished_verify_at b.finished_verify_at) (keep is_finished db)

-- ORDER BY ... DESC LIMIT 1
unfoldable pub get_most_recent_finished_contributor : Table → Option Contributor
unfolding order_by contributor
get_most_recent_finished_contributor db =
    elim (head? (
      order_by (λ a b. order_lt b.finished_verify_at a.finished_verify_at) (keep is_finished db))) [
        | none ↦ none
        | some r ↦ some (contributor r)
      ]

unfoldable pub get_current : Table → Option ContributorRow
unfolding order_by
get_current db = head? (order_by (λ a b. order_lt a.joined_at b.joined_at) (keep is_queued db))

unfoldable pub finish_current : ℕ → Table → Outcome Table
unfolding mark_finished_verify
finish_current now db = elim (get_current db) [
  | some current ↦ ok (mark_finished_verify now current db)
  | none ↦ err (from_error no_current_contributor)
]

unfoldable pub kick_current : ℕ → KickedError → Table → Outcome Table
unfolding mark_kicked
kick_current now error db = elim (get_current db) [
  | some current ↦ ok (mark_kicked now current error db)
  | none ↦ err (from_error no_current_contributor)
]
