-- ===== src/Server/Mapping/HousingRoundTrip.antt =====
-- Reading back the message that was written for a housing option (internal/server/mapping.go).
use mathlib.Core.Path.{subst}
use our_ne_zt_core.Common.{
  String, true, Option, none, some, List, [], ◌∷◌, ◌≡◌, refl, inl, inr, Bool-cases, ◌<◌, ◌^◌,
}
use our_ne_zt_core.Common.Text.{is_empty, trim_space, trim_left, trim_right}
use our_ne_zt_core.Common.Trim.{trim_space_idem}
use our_ne_zt_core.Common.Int32.{to_int32-to_int}
use our_ne_zt_core.Domain.{HousingOption}
use our_ne_zt_core.Errors.{ok, first-ok, ok_inj}
use our_ne_zt_core.Server.Messages.{HousingMessage, DiaIncomeOverrideMessage}
use our_ne_zt_core.Server.Mapping.{Dates, overrides_from_proto, overrides_to_proto}
use our_ne_zt_core.Server.Mapping.Housing.{
  housing_from_proto, housing_to_proto, or_empty, group_to_proto,
}
use our_ne_zt_core.Server.Mapping.RoundTrip.{IsDates, parse-format}

overrides-echo :
    (ms : List (Option DiaIncomeOverrideMessage))
    → overrides_from_proto (overrides_to_proto (overrides_from_proto ms)) ≡ overrides_from_proto ms
unfolding overrides_from_proto overrides_to_proto
overrides-echo [] = refl
overrides-echo (none ∷ ms) = overrides-echo ms
overrides-echo (some m ∷ ms) = elim (Bool-cases (is_empty (trim_space m.person_id))) [
  | inl e ↦ simp e (overrides-echo ms)
  | inr e ↦ simp (e, trim_space_idem m.person_id, e, overrides-echo ms) refl
]

is_empty-eq : (s : String) → is_empty s ≡ true → s ≡ ""
is_empty-eq String.[] e = refl
is_empty-eq (String.◌∷◌ c s) e = cc

trim_nothing : trim_space "" ≡ ""
unfolding trim_space trim_left trim_right
trim_nothing = refl

group-echo : (s : String) → trim_space (or_empty (group_to_proto (trim_space s))) ≡ trim_space s
unfolding group_to_proto
group-echo s = elim (Bool-cases (is_empty (trim_space s))) [
  | inl e ↦ simp (trim_space_idem s, e, is_empty-eq (trim_space s) e, trim_nothing) refl
  | inr e ↦ simp (trim_space_idem s, e) refl
]

module _ (dates : Dates) (laws : IsDates dates) {F : Type 0} where
  -- Where dates read back as package `time` documents: if a message, whose tenure is an `int32`,
  -- reads as an option, then the message that is written for this option reads as the same option.
  pub housing_from_proto-housing_to_proto :
      (m : HousingMessage F) (o : HousingOption F)
      → m.loan_tenure_months < 2 ^ 32
      → housing_from_proto dates (some m) ≡ ok o
      → housing_from_proto dates (some (housing_to_proto dates o)) ≡ ok o
  unfolding housing_from_proto housing_to_proto
  housing_from_proto-housing_to_proto m o b h =
      let (key_date, ek, h1) = first-ok _ _ h in
      subst (λ q. housing_from_proto dates (some (housing_to_proto dates q)) ≡ ok q) (ok_inj h1)
        (simp
          (
            trim_space_idem,
            to_int32-to_int m.loan_tenure_months b,
            parse-format dates laws _ _ ek,
            overrides-echo m.dia_income_overrides,
            group-echo (or_empty m.housing_group_id),
          )
          refl)
