-- ===== src/Postgres/Tables.antt =====
-- The tables of db/migrations, as lists of rows, and what PostgreSQL adds to a statement: `::uuid`,
-- `gen_random_uuid()`, `now()` and `lower`. Columns that a row of internal/domain holds stand in that
-- record; NULL is the empty text in a text and `none` in a time.
use our_ne_zt_core.Common.{ℕ, String, Bool, Option, none, some, List, ◌≡◌}
use our_ne_zt_core.Domain.{
  EntityId, Time, User, Family, FamilyRole, PersonProfile, HousingOption, HousingGroup,
  HousingCriterion, HousingAnswer, PersonIncomeHistoryEntry,
}
use our_ne_zt_core.Postgres.Sql.{Outcome, done, failed, server}

pub record Engine : Type 0 where
  -- The text of the UUID that a text stands for, if any.
  pub uuid : String → Option EntityId
  -- The random UUIDs, in the order in which they are drawn.
  pub new_id : ℕ → EntityId
  pub lower : String → String
  -- The order of texts in `ORDER BY`, as the database's collation has it.
  pub text_le : String → String → Bool
  pub uuid_le : EntityId → EntityId → Bool

-- What PostgreSQL documents of UUIDs: the text of a UUID stands for itself, and a random one is a UUID.
pub record IsEngine (e : Engine) : Type 0 where
  pub canonical : (s : String) (u : EntityId) → e.uuid s ≡ some u → e.uuid u ≡ some u
  pub generated : (n : ℕ) → e.uuid (e.new_id n) ≡ some (e.new_id n)

pub record SessionRow : Type 0 where
  pub user_id : EntityId
  pub token_hash : String
  pub expires_at : Time
  pub revoked_at : Option Time
  pub created_at : Time

pub record AccessKeyRow : Type 0 where
  pub user_id : EntityId
  pub token_hash : String
  pub expires_at : Time
  pub used_at : Option Time
  pub created_at : Time

pub record MemberRow : Type 0 where
  pub family_id : EntityId
  pub user_id : EntityId
  pub role : FamilyRole
  pub joined_at : Time

pub record InviteRow : Type 0 where
  pub family_id : EntityId
  pub code_hash : String
  pub expires_at : Option Time
  pub revoked_at : Option Time
  pub created_by : EntityId
  pub created_at : Time

pub record HistoryRow : Type 0 where
  pub family_id : EntityId
  pub entry : PersonIncomeHistoryEntry

pub record CriterionRow (F : Type 0) : Type 0 where
  pub criterion : HousingCriterion F
  pub deleted : Bool

pub record AnswerRow : Type 0 where
  pub family_id : EntityId
  pub answer : HousingAnswer

pub record Database (F : Type 0) : Type 0 where
  pub users : List User
  pub sessions : List SessionRow
  pub access_keys : List AccessKeyRow
  pub families : List Family
  pub members : List MemberRow
  pub invites : List InviteRow
  pub people : List PersonProfile
  pub history : List HistoryRow
  pub options : List (HousingOption F)
  pub groups : List HousingGroup
  pub criteria : List (CriterionRow F)
  pub answers : List AnswerRow
  -- How many random UUIDs have been drawn, and the time of `now()`.
  pub drawn : ℕ
  pub clock : Time
  -- Which of the later migrations have run: the income history, and the users linked to people.
  pub has_history : Bool
  pub has_linked_users : Bool

-- `$1::uuid`.
abbrev pub id_or_invalid : Option EntityId → Outcome EntityId
id_or_invalid (some u) = done u
id_or_invalid none = failed (server "22P02" "invalid input syntax for type uuid")

abbrev pub cast : Engine → String → Outcome EntityId
cast e s = id_or_invalid (e.uuid s)
