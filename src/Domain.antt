-- ===== src/Domain.antt =====
-- internal/domain/models.go: the records that the layers of the service hand to one another.
use our_ne_zt_core.Common.{ℕ, ◌*◌, String, Bool, Option, List, ◌==◌}
use our_ne_zt_core.Common.Int64.{Int64}
use our_ne_zt_core.Common.Int32.{Int32}

abbrev pub EntityId : Type 0
EntityId = String

-- `time.Time`, in nanoseconds from the start of the year 0, the first that `time.Parse` reads.
abbrev pub Time : Type 0
Time = ℕ

-- The zero value of `time.Time`, the start of the year 1; the year 0 has 366 days.
abbrev pub zero_time : Time
zero_time = 366 * 86_400_000_000_000

abbrev pub is_zero : Time → Bool
is_zero t = t == zero_time

abbrev pub UserRole : Type 0
UserRole = String

abbrev pub user_role_admin : UserRole
user_role_admin = "admin"

abbrev pub user_role_user : UserRole
user_role_user = "user"

pub record User : Type 0 where
  pub id : EntityId
  pub email : String
  pub display_name : String
  pub role : UserRole
  pub password_hash : String
  pub must_change_password : Bool
  pub disabled_at : Option Time
  pub created_at : Time
  pub updated_at : Time

abbrev pub FamilyType : Type 0
FamilyType = String

abbrev pub family_single : FamilyType
family_single = "single"

abbrev pub family_couple : FamilyType
family_couple = "couple"

abbrev pub family_family : FamilyType
family_family = "family"

abbrev pub family_shared_household : FamilyType
family_shared_household = "shared_household"

abbrev pub FamilyRole : Type 0
FamilyRole = String

abbrev pub role_owner : FamilyRole
role_owner = "owner"

abbrev pub role_admin : FamilyRole
role_admin = "admin"

abbrev pub role_member : FamilyRole
role_member = "member"

abbrev pub role_viewer : FamilyRole
role_viewer = "viewer"

pub record Family : Type 0 where
  pub id : EntityId
  pub name : String
  pub family_type : FamilyType
  pub created_at : Time
  pub updated_at : Time

abbrev pub EmploymentStatus : Type 0
EmploymentStatus = String

abbrev pub full_time : EmploymentStatus
full_time = "full_time_employee"

abbrev pub part_time : EmploymentStatus
part_time = "part_time_employee"

abbrev pub self_employed : EmploymentStatus
self_employed = "self_employed"

abbrev pub student : EmploymentStatus
student = "student"

abbrev pub full_time_nsf : EmploymentStatus
full_time_nsf = "full_time_nsf"

abbrev pub unemployed : EmploymentStatus
unemployed = "unemployed"

abbrev pub future_employee : EmploymentStatus
future_employee = "future_employee"

pub record PersonProfile : Type 0 where
  pub id : EntityId
  pub family_id : EntityId
  pub linked_user_id : EntityId
  pub name : String
  pub age : Int64
  pub relationship_label : String
  pub employment_status : EmploymentStatus
  pub gross_monthly_income_cents : Int64
  pub expected_future_income_cents : Int64
  pub expected_income_start_date : Option Time
  pub graduation_date : Option Time
  pub ord_date : Option Time
  pub cash_savings_cents : Int64
  pub cpf_oa_cents : Int64
  pub cpf_sa_cents : Int64
  pub cpf_ma_cents : Int64
  pub monthly_expenses_cents : Int64
  pub created_at : Time
  pub updated_at : Time

pub record PersonIncomeHistoryEntry : Type 0 where
  pub person_id : EntityId
  pub person_name : String
  pub gross_monthly_income_cents : Int64
  pub expected_future_income_cents : Int64
  pub recorded_at : Time

abbrev pub HousingType : Type 0
HousingType = String

abbrev pub bto : HousingType
bto = "bto"

abbrev pub resale_hdb : HousingType
resale_hdb = "resale_hdb"

abbrev pub executive_condo : HousingType
executive_condo = "executive_condo"

abbrev pub private_condo : HousingType
private_condo = "private_condo"

abbrev pub landed : HousingType
landed = "landed"

abbrev pub other_type : HousingType
other_type = "other"

abbrev pub LoanType : Type 0
LoanType = String

abbrev pub loan_hdb : LoanType
loan_hdb = "hdb"

abbrev pub loan_bank : LoanType
loan_bank = "bank"

abbrev pub loan_cash : LoanType
loan_cash = "cash"

pub record HousingGroup : Type 0 where
  pub id : EntityId
  pub family_id : EntityId
  pub name : String
  pub created_at : Time
  pub updated_at : Time

pub record HousingDiaIncomeOverride : Type 0 where
  pub person_id : EntityId
  pub projected_income_cents : Int64

-- `F` is the type of a `float64`; the order is an `int32`.
pub record HousingCriterion (F : Type 0) : Type 0 where
  pub id : EntityId
  pub family_id : EntityId
  pub name : String
  pub description : String
  pub display_order : Int32
  pub weight : Option F

pub record HousingAnswer : Type 0 where
  pub housing_id : EntityId
  pub criterion_id : EntityId
  pub state : String
  pub rating : Option Int32
  pub notes : String

-- `F` is the type of a `float64`.
pub record HousingEvaluationSummary (F : Type 0) : Type 0 where
  pub score : Option F
  pub total : Int32
  pub completed : Int32
  pub not_applicable : Int32
  pub rated : Int32
  pub weighted : Bool

pub record HousingOption (F : Type 0) : Type 0 where
  pub notes : String
  pub evaluation : Option (HousingEvaluationSummary F)
  pub id : EntityId
  pub family_id : EntityId
  pub group_id : EntityId
  pub name : String
  pub housing_type : HousingType
  pub location : String
  pub unit_type : String
  pub purchase_price_cents : Int64
  pub grant_amount_cents : Int64
  pub loan_type : LoanType
  pub loan_amount_cents : Int64
  pub interest_rate_bps : Int64
  pub loan_tenure_months : Int64
  pub downpayment_percent_bps : Int64
  pub renovation_budget_cents : Int64
  pub furniture_budget_cents : Int64
  pub legal_fees_cents : Int64
  pub buyer_stamp_duty_cents : Int64
  pub monthly_maintenance_cents : Int64
  pub visible_on_dashboard : Bool
  pub expected_key_collection_date : Option Time
  pub dia_income_overrides : List HousingDiaIncomeOverride
  pub created_at : Time
  pub updated_at : Time

pub data AffordabilityRating : Type 0 where
  comfortable manageable tight risky not_recommended : AffordabilityRating
