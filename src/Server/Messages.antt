-- ===== src/Server/Messages.antt =====
-- The messages of proto/ournezt/v1 that the handlers read and write, as protoc's Go structs hold them:
-- a message that may be missing, and an `optional` field, is an `Option`.
use our_ne_zt_core.Common.{String, Bool, Option, List}
use our_ne_zt_core.Common.Int64.{Int64}
use our_ne_zt_core.Common.Int32.{Int32}
use our_ne_zt_core.Domain.{HousingEvaluationSummary}

pub record UserMessage : Type 0 where
  pub id : String
  pub email : String
  pub display_name : String
  pub role : String
  pub disabled : Bool
  pub must_change_password : Bool

pub record FamilyMessage : Type 0 where
  pub id : String
  pub name : String
  pub family_type : String

pub record PersonMessage : Type 0 where
  pub id : String
  pub family_id : String
  pub linked_user_id : String
  pub name : String
  pub age : Int32
  pub relationship_label : String
  pub employment_status : String
  pub gross_monthly_income_cents : Int64
  pub expected_future_income_cents : Int64
  pub expected_income_start_date : String
  pub graduation_date : String
  pub ord_date : String
  pub cash_savings_cents : Int64
  pub cpf_oa_cents : Int64
  pub cpf_sa_cents : Int64
  pub cpf_ma_cents : Int64
  pub monthly_expenses_cents : Int64

pub record IncomeHistoryMessage : Type 0 where
  pub person_id : String
  pub person_name : String
  pub gross_monthly_income_cents : Int64
  pub expected_future_income_cents : Int64
  pub recorded_at : String

pub record DiaIncomeOverrideMessage : Type 0 where
  pub person_id : String
  pub projected_income_cents : Int64

pub record HousingMessage (F : Type 0) : Type 0 where
  pub notes : String
  pub evaluation : Option (HousingEvaluationSummary F)
  pub id : String
  pub family_id : String
  pub housing_group_id : Option String
  pub name : String
  pub housing_type : String
  pub location : String
  pub unit_type : String
  pub purchase_price_cents : Int64
  pub grant_amount_cents : Int64
  pub loan_type : String
  pub loan_amount_cents : Int64
  pub interest_rate_bps : Int64
  pub loan_tenure_months : Int32
  pub downpayment_percent_bps : Int64
  pub renovation_budget_cents : Int64
  pub furniture_budget_cents : Int64
  pub legal_fees_cents : Int64
  pub buyer_stamp_duty_cents : Int64
  pub monthly_maintenance_cents : Int64
  pub expected_key_collection_date : String
  pub dia_income_overrides : List (Option DiaIncomeOverrideMessage)
  pub visible_on_dashboard : Option Bool

pub record HousingGroupMessage : Type 0 where
  pub id : String
  pub family_id : String
  pub name : String

-- A request that names who asks, or acts, and what about.
pub record ByIdRequest : Type 0 where
  pub user_id : String
  pub target_id : String

pub record CreateUserRequest : Type 0 where
  pub email : String
  pub display_name : String
  pub password : String
  pub role : String

pub record LoginRequest : Type 0 where
  pub email : String
  pub password : String

pub record LoginResponse : Type 0 where
  pub user : UserMessage
  pub session_token : String

pub record ChangePasswordRequest : Type 0 where
  pub current_password : String
  pub new_password : String

pub record UpdateMyAccountRequest : Type 0 where
  pub email : String
  pub display_name : String

pub record AccessKeyResponse : Type 0 where
  pub access_key : String
  pub expires_at : String

pub record CreateFamilyRequest : Type 0 where
  pub owner_user_id : String
  pub name : String
  pub family_type : String

pub record JoinFamilyRequest : Type 0 where
  pub user_id : String
  pub code : String

pub record FamilyMemberMessage : Type 0 where
  pub family_id : String
  pub user_id : String
  pub display_name : String
  pub role : String
