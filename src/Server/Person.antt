-- ===== src/Server/Person.antt =====
-- internal/server/person.go: the handlers for the people of a family. A handler's errors are all
-- translated by `toStatusError`, which `handle` does.
use text.Mathlib.Text.{◌==◌}
use our_ne_zt_core.Common.{
  String, Bool, true, false, not, Option, none, some, List, map, if◌then◌else◌, ◌||◌,
}
use our_ne_zt_core.Common.Text.{is_empty, trim_space}
use our_ne_zt_core.Common.Int64.{lt}
use our_ne_zt_core.Domain.{PersonProfile, EntityId, full_time, student, full_time_nsf}
use our_ne_zt_core.Errors.{Error, Result, ok, err}
use our_ne_zt_core.Action.{Action, ◌>>=◌, give, lift}
use our_ne_zt_core.Server.Errors.{handle}
use our_ne_zt_core.Server.Messages.{PersonMessage, IncomeHistoryMessage, ByIdRequest}
use our_ne_zt_core.Server.Mapping.{
  Dates, person_from_proto, person_to_proto, income_history_entry_to_proto, is_some,
}
use our_ne_zt_core.Server.Access.{Authenticator, optional_authenticated_actor_id}
use our_ne_zt_core.Server.Requests.{with_request}
use our_ne_zt_core.Server.Repositories.{People}
pub mod Accepted
pub mod Stores

-- The labels that the first `switch` of `validateAndNormalizePersonProfile` accepts.
unfoldable pub is_relationship : String → Bool
is_relationship label =
    (label == "spouse")
    || (label == "fiance")
    || (label == "fiancee")
    || (label == "occupant")
    || (label == "self")
    || (label == "me")

-- The second `switch`, on the employment status: the fields that do not apply are reset.
unfoldable pub normalize_employment : PersonProfile → Result PersonProfile
normalize_employment p =
    if p.employment_status == full_time
    then ok (record p {
      expected_future_income_cents = 0;
      expected_income_start_date = none;
      graduation_date = none;
      ord_date = none;
    })
    else if p.employment_status == student
    then (if is_some p.graduation_date
        then ok (record p { ord_date = none })
        else err Error.invalid_argument)
    else if p.employment_status == full_time_nsf
    then (if is_some p.ord_date
        then ok (record p { graduation_date = none })
        else err Error.invalid_argument)
    else err Error.invalid_argument

unfoldable pub has_negative : PersonProfile → Bool
has_negative p =
    lt p.gross_monthly_income_cents 0
    || lt p.expected_future_income_cents 0
    || lt p.cash_savings_cents 0
    || lt p.cpf_oa_cents 0
    || lt p.cpf_sa_cents 0
    || lt p.cpf_ma_cents 0
    || lt p.monthly_expenses_cents 0

unfoldable pub check_amounts : Result PersonProfile → Result PersonProfile
check_amounts (ok p) = if has_negative p then err Error.invalid_argument else ok p
check_amounts (err e) = err e

-- `to_lower` is `strings.ToLower`.
module _ (to_lower : String → String) where
  unfoldable pub validate_and_normalize_person_profile : PersonProfile → Result PersonProfile
  validate_and_normalize_person_profile p =
      if is_empty (trim_space p.name)
      then err Error.invalid_argument
      else if is_relationship (trim_space (to_lower p.relationship_label))
      then check_amounts (normalize_employment p)
      else err Error.invalid_argument

module _ {S : Type 0} (people : People S) (auth : Option (Authenticator S)) (dates : Dates)
    (to_lower : String → String) where
  unfoldable pub create_person_profile : Option PersonMessage → Action S PersonMessage
  create_person_profile req = handle (do
    read ← lift (person_from_proto dates req)
    profile ← lift (validate_and_normalize_person_profile to_lower read)
    actor ← optional_authenticated_actor_id auth
    created ← people.create_person_profile profile actor
    give (person_to_proto dates created))

  unfoldable pub get_person_profile : Option ByIdRequest → Action S PersonMessage
  get_person_profile req = with_request auth req λ person viewer. do
    profile ← people.get_person_profile person viewer
    give (person_to_proto dates profile)

  unfoldable pub list_person_profiles_by_family : Option ByIdRequest → Action S (List PersonMessage)
  list_person_profiles_by_family req = with_request auth req λ family viewer. do
    profiles ← people.list_person_profiles_by_family family viewer
    give (map (person_to_proto dates) profiles)

  unfoldable pub list_income_history_by_family :
      Option ByIdRequest → Action S (List IncomeHistoryMessage)
  list_income_history_by_family req = with_request auth req λ family viewer. do
    entries ← people.list_person_income_history_by_family family viewer
    give (map (income_history_entry_to_proto dates) entries)

  unfoldable pub update_person_profile : Option PersonMessage → Action S PersonMessage
  update_person_profile req = handle (do
    read ← lift (person_from_proto dates req)
    named ← lift (if is_empty read.id then err Error.invalid_argument else ok read)
    profile ← lift (validate_and_normalize_person_profile to_lower named)
    actor ← optional_authenticated_actor_id auth
    updated ← people.update_person_profile profile actor
    give (person_to_proto dates updated))

  unfoldable pub delete_person_profile : Option ByIdRequest → Action S (Unit {0})
  delete_person_profile req =
      with_request auth req λ person actor. people.delete_person_profile person actor
