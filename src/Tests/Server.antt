-- ===== src/Tests/Server.antt =====
-- The handlers: runs on concrete requests, and instances of the theorems.
use text.Mathlib.Text.{◌==◌}
use our_ne_zt_core.Common.{
  ℕ, ◌≡◌, refl, false, some, none, List, [], ◌∷◌, String, if◌then◌else◌, arith,
}
use our_ne_zt_core.Common.Text.{
  is_empty, trim_space, trim_left, trim_right, is_space, has_prefix, drop,
}
use our_ne_zt_core.Common.Int32.{to_int}
use our_ne_zt_core.Common.Int64.{lt}
use our_ne_zt_core.Domain.{Time, User, PersonProfile, EntityId, zero_time, user_role_admin}
use our_ne_zt_core.Errors.{Error, ok, err}
use our_ne_zt_core.Action.{Action, throw, give}
use our_ne_zt_core.Server.Messages.{PersonMessage, HousingMessage}
use our_ne_zt_core.Server.Repositories.{AuthSessionStore, People}
use our_ne_zt_core.Server.Mapping.{
  Dates, person_from_proto, person_to_proto, parse_optional_date, overrides_from_proto,
}
use our_ne_zt_core.Server.Mapping.Housing.{housing_from_proto, housing_to_proto}
use our_ne_zt_core.Server.Mapping.RoundTrip.{IsDates, person_from_proto-person_to_proto}
use our_ne_zt_core.Server.Mapping.HousingRoundTrip.{housing_from_proto-housing_to_proto}
use our_ne_zt_core.Server.Access.{
  authenticate, authenticated_admin, known_user, session_error, session_token, bearer_token,
}
use our_ne_zt_core.Server.Access.Admission.{authenticated_admin-authenticate}
use our_ne_zt_core.Server.Person.{
  create_person_profile, validate_and_normalize_person_profile, is_relationship,
  normalize_employment, has_negative, check_amounts,
}
use our_ne_zt_core.Server.Person.Accepted.{IsAccepted, validate-IsAccepted}
use our_ne_zt_core.Server.Person.Stores.{create_person_profile_congr}
use our_ne_zt_core.Tests.Samples.{flat}

-- A calendar of one day.
abbrev last_of_january : Time
last_of_january = 7

abbrev dates : Dates
dates = record {
  parse = λ s. if s == "2030-01-31" then some last_of_january else none;
  format = λ t. "2030-01-31";
  format_rfc3339 = λ t. "2030-01-31T00:00:00Z";
}

the_day : (s : String) (t : Time) → dates.parse s ≡ some t → t ≡ last_of_january
the_day s t h = ground (arith, h)

dates-IsDates : IsDates dates
unfolding trim_space trim_left trim_right is_space
dates-IsDates = record {
  printable =
      λ s t h. record { trimmed = refl; shown = refl; read = ground (arith, the_day s t h) };
}

abbrev message : PersonMessage
message = record {
  id = " p3 ";
  family_id = "f1";
  linked_user_id = "";
  name = " Cara";
  age = 22;
  relationship_label = "spouse";
  employment_status = "student";
  gross_monthly_income_cents = 0;
  expected_future_income_cents = 450000;
  expected_income_start_date = "";
  graduation_date = " 2030-01-31 ";
  ord_date = "";
  cash_savings_cents = 100000;
  cpf_oa_cents = 0;
  cpf_sa_cents = 0;
  cpf_ma_cents = 0;
  monthly_expenses_cents = 70000;
}

abbrev cara : PersonProfile
cara = record {
  id = "p3";
  family_id = "f1";
  linked_user_id = "";
  name = "Cara";
  age = 22;
  relationship_label = "spouse";
  employment_status = "student";
  gross_monthly_income_cents = 0;
  expected_future_income_cents = 450000;
  expected_income_start_date = none;
  graduation_date = some last_of_january;
  ord_date = none;
  cash_savings_cents = 100000;
  cpf_oa_cents = 0;
  cpf_sa_cents = 0;
  cpf_ma_cents = 0;
  monthly_expenses_cents = 70000;
  created_at = zero_time;
  updated_at = zero_time;
}

cara_read : person_from_proto dates (some message) ≡ ok cara
unfolding person_from_proto parse_optional_date trim_space trim_left trim_right is_space to_int
cara_read = refl

person_from_proto-person_to_proto_example :
    person_from_proto dates (some (person_to_proto dates cara)) ≡ ok cara
person_from_proto-person_to_proto_example =
    person_from_proto-person_to_proto dates dates-IsDates message cara (omega arith) cara_read

abbrev flat_message : HousingMessage ℕ
flat_message = record {
  notes = "";
  evaluation = none;
  id = "h1";
  family_id = "f1";
  housing_group_id = none;
  name = "Tengah ";
  housing_type = "bto";
  location = "Tengah";
  unit_type = "4-room";
  purchase_price_cents = 40000000;
  grant_amount_cents = 2000000;
  loan_type = "bank";
  loan_amount_cents = 0;
  interest_rate_bps = 0;
  loan_tenure_months = 300;
  downpayment_percent_bps = 2500;
  renovation_budget_cents = 0;
  furniture_budget_cents = 0;
  legal_fees_cents = 300000;
  buyer_stamp_duty_cents = 600000;
  monthly_maintenance_cents = 8000;
  expected_key_collection_date = "";
  dia_income_overrides = none ∷ some (record { person_id = "  "; projected_income_cents = 1 }) ∷ [];
  visible_on_dashboard = none;
}

flat_read : housing_from_proto dates (some flat_message) ≡ ok flat
unfolding housing_from_proto parse_optional_date overrides_from_proto trim_space trim_left
    trim_right is_space to_int
flat_read = refl

housing_from_proto-housing_to_proto_example :
    housing_from_proto dates (some (housing_to_proto dates flat)) ≡ ok flat
housing_from_proto-housing_to_proto_example =
    housing_from_proto-housing_to_proto dates dates-IsDates flat_message flat (omega arith)
      flat_read

abbrev lower : String → String
lower s = s

cara_valid : validate_and_normalize_person_profile lower cara ≡ ok cara
unfolding validate_and_normalize_person_profile is_relationship normalize_employment has_negative
    check_amounts trim_space trim_left trim_right is_space lt
cara_valid = refl

validate-IsAccepted_example : IsAccepted lower cara
validate-IsAccepted_example = validate-IsAccepted lower cara cara cara_valid

abbrev pub Store : Type 0
Store = List PersonProfile

abbrev pub store_all : PersonProfile → EntityId → Action Store PersonProfile
store_all p actor s = (p ∷ s, ok p)

-- A store that refuses people without a name.
abbrev store_named : PersonProfile → EntityId → Action Store PersonProfile
store_named p actor s =
    if is_empty (trim_space p.name) then (s, err Error.conflict) else (p ∷ s, ok p)

abbrev pub store_by : (PersonProfile → EntityId → Action Store PersonProfile) → People Store
store_by save = record {
  create_person_profile = save;
  get_person_profile = λ p viewer. throw Error.not_found;
  list_person_profiles_by_family = λ family viewer s. (s, ok s);
  list_person_income_history_by_family = λ family viewer. give [];
  update_person_profile = save;
  delete_person_profile = λ p actor. give tt;
}

same_store :
    (p : PersonProfile) (actor : EntityId) (s : Store)
    → IsAccepted lower p
    → store_all p actor s ≡ store_named p actor s
same_store p actor s a = simp a.named refl

create_person_profile_congr_example :
    create_person_profile (store_by store_all) none dates lower (some message) []
    ≡ create_person_profile (store_by store_named) none dates lower (some message) []
create_person_profile_congr_example =
    create_person_profile_congr none dates lower (store_by store_all) (store_by store_named)
      same_store (some message) []

abbrev root : User
root = record {
  id = "u1";
  email = "root@example.com";
  display_name = "Root";
  role = user_role_admin;
  password_hash = "h";
  must_change_password = false;
  disabled_at = none;
  created_at = zero_time;
  updated_at = zero_time;
}

abbrev one_session : AuthSessionStore ℕ
one_session = record {
  create_session = λ user hash expires. give tt;
  get_user_by_session_token_hash =
      λ hash now s. if hash == "tok" then (s, ok root) else (s, err Error.not_found);
  revoke_sessions_by_user_id = λ user. give tt;
}

root_passes : authenticated_admin (some (authenticate one_session lower "tok" 9)) 0 ≡ (0, ok root)
unfolding authenticated_admin authenticate known_user
root_passes = refl

stranger_stopped :
    authenticated_admin (some (authenticate one_session lower "tik" 9)) 0
    ≡ (0, err Error.unauthenticated)
unfolding authenticated_admin authenticate known_user session_error
stranger_stopped = refl

-- Without a session header, the bearer token counts.
tokens :
    session_token lower
      (some (λ header. if header == "authorization" then "bearer  t1 " ∷ [] else []))
    ≡ "t1"
unfolding session_token bearer_token trim_space trim_left trim_right is_space has_prefix drop
tokens = refl

authenticated_admin-authenticate_example :
    (is_empty "tok" ≡ false)
    × (one_session.get_user_by_session_token_hash "tok" 9 0 ≡ (0, ok root))
    × (root.disabled_at ≡ none)
    × (root.role ≡ user_role_admin)
    × (root.must_change_password ≡ false)
authenticated_admin-authenticate_example =
    authenticated_admin-authenticate one_session lower "tok" 9 0 0 root root_passes
