-- ===== src/Postgres/Sql.antt =====
-- What the SQL statements of internal/repository/postgres are made of: outcomes of a statement, and
-- selections, updates and orders on the rows of a table. A statement that fails changes nothing.
use text.Mathlib.Text.{◌==◌}
use our_ne_zt_core.Common.{
  String, Bool, true, false, Option, none, some, List, [], ◌∷◌, if◌then◌else◌, ◌||◌,
}
use our_ne_zt_core.Errors.{Error, Result, ok, err}
use our_ne_zt_core.Action.{Action}
pub mod Unique
pub mod Select

-- An error of the driver: no row to scan, an error of the server with its code, or any other.
pub data PgError : Type 0 where
  no_rows : PgError
  server : (code message : String) → PgError
  driver : String → PgError

pub data Outcome {ℓ} (T : Type ℓ) : Type ℓ where
  failed : PgError → Outcome T
  done : T → Outcome T

-- Later parts of a statement, or of a transaction, that run if the earlier ones have not failed.
infixl 5 ◌>>=◌ ◌>>◌
abbrev pub ◌>>=◌ {ℓ κ} : {T : Type ℓ} {U : Type κ} → Outcome T → (T → Outcome U) → Outcome U
failed e >>= rest = failed e
done t >>= rest = rest t

abbrev pub ◌>>◌ {ℓ} : {U : Type ℓ} → Outcome (Unit {0}) → Outcome U → Outcome U
m >> rest = m >>= λ _. rest

-- `normalizeError`; the codes are those of unique violations, of texts that are no value of their
-- type, and of violated `NOT NULL`, foreign keys and checks.
unfoldable pub normalize_error : PgError → Error
normalize_error no_rows = Error.not_found
normalize_error (server code message) =
    if (code == "23505")
    then Error.conflict
    else if (code == "22P02") || (code == "23502") || (code == "23503") || (code == "23514")
    then Error.invalid_argument
    else Error.other message
normalize_error (driver message) = Error.other message

abbrev pub answer {κ} : {T : Type κ} → Outcome T → Result T
answer (done a) = ok a
answer (failed e) = err (normalize_error e)

module _ {ℓ κ} {S : Type ℓ} {T : Type κ} where
  abbrev pub settle : S → Outcome (S × T) → S × Result T
  settle s (done (t, a)) = (t, ok a)
  settle s (failed e) = (s, err (normalize_error e))

  -- A statement, or a transaction that is rolled back when it fails, as a call of the repository.
  abbrev pub run : (S → Outcome (S × T)) → Action S T
  run statement s = settle s (statement s)

  -- A statement that only reads.
  abbrev pub ask : (S → Outcome T) → Action S T
  ask statement s = (s, answer (statement s))

abbrev pub check_violation : PgError
check_violation = server "23514" "new row violates check constraint"

abbrev pub unique_violation : PgError
unique_violation = server "23505" "duplicate key value violates unique constraint"

abbrev pub foreign_key_violation : PgError
foreign_key_violation = server "23503" "insert violates foreign key constraint"

abbrev pub require : Bool → PgError → Outcome (Unit {0})
require true e = done tt
require false e = failed e

module _ {ℓ} {A : Type ℓ} where
  abbrev pub row_of : Option A → Outcome A
  row_of none = failed no_rows
  row_of (some a) = done a

  unfoldable pub find_row : (A → Bool) → List A → Option A
  find_row p [] = none
  find_row p (a ∷ rows) = let rest = find_row p rows in if p a then some a else rest

  -- `EXISTS`, and whether a statement has affected a row.
  unfoldable pub any_row : (A → Bool) → List A → Bool
  any_row p [] = false
  any_row p (a ∷ rows) = let rest = any_row p rows in if p a then true else rest

  unfoldable pub update_rows : (A → Bool) → (A → A) → List A → List A
  update_rows p f [] = []
  update_rows p f (a ∷ rows) = let rest = update_rows p f rows in (if p a then f a else a) ∷ rest

  unfoldable pub put_in_order : (A → A → Bool) → A → List A → List A
  put_in_order before a [] = a ∷ []
  put_in_order before a (b ∷ bs) =
      let rest = put_in_order before a bs in if before a b then a ∷ b ∷ bs else b ∷ rest

  -- `ORDER BY`; rows that are equal in it keep the order of the table.
  unfoldable pub order_by : (A → A → Bool) → List A → List A
  order_by before [] = []
  order_by before (a ∷ rows) = put_in_order before a (order_by before rows)
