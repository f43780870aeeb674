-- ===== src/Tests/HousingTables.antt =====
-- The tables of housing options and groups: instances of the theorems.
use text.Mathlib.TextEquality.{eq_iff}
use our_ne_zt_core.Common.{ℕ, ◌&&◌, true, false, some, [], ◌∷◌, ◌≡◌, ◌≢◌, refl, arith}
use our_ne_zt_core.Common.Int64.{is_neg}
use our_ne_zt_core.Common.Text.{trim_space, trim_left, trim_right, is_space, rune_count}
use our_ne_zt_core.Domain.{HousingOption, HousingGroup}
use our_ne_zt_core.Errors.{ok}
use our_ne_zt_core.Postgres.Sql.{done, any_row, find_row}
use our_ne_zt_core.Postgres.Tables.{Database}
use our_ne_zt_core.Postgres.Access.{is_member, writes}
use our_ne_zt_core.Postgres.HousingRows.{check_row, group_in, rewritten, scanned, writable}
use our_ne_zt_core.Postgres.Housing.{update_housing_option}
use our_ne_zt_core.Postgres.HousingGroups.Isolation.{show, write, options_of, write-isolated}
use our_ne_zt_core.Postgres.HousingGroups.Assignment.{IsFilled, update_housing_option-foreign_group}
use our_ne_zt_core.Tests.Samples.{flat}
use our_ne_zt_core.Tests.Database.{plain, home, db}

-- Ann's flat, and a group of a family that she is no member of.
abbrev anns_flat : HousingOption ℕ
anns_flat = record flat { family_id = "f" }

abbrev their_group : HousingGroup
their_group = record { id = "gb"; family_id = "o"; name = "Theirs"; created_at = 1; updated_at = 1 }

abbrev houses : Database ℕ
houses = record db {
  families = home ∷ record home { id = "o" } ∷ [];
  options = anns_flat ∷ [];
  groups = their_group ∷ [];
}

abbrev request : HousingOption ℕ
request = record anns_flat { family_id = "o"; group_id = "gb" }

request-IsFilled : IsFilled request
unfolding trim_space trim_left trim_right is_space
request-IsFilled = record {
  with_id = refl;
  with_name = refl;
  with_family = refl;
  with_group = refl;
  trimmed = refl;
}

stored : find_row (λ r. writable "h1" "a" houses.members r && true) houses.options ≡ some anns_flat
unfolding find_row is_member any_row
stored = refl

theirs : any_row (group_in "gb" "o") houses.groups ≡ true
unfolding any_row
theirs = refl

passes : check_row request ≡ done tt
unfolding check_row is_neg rune_count
passes = refl

families_differ : anns_flat.family_id ≢ "o"
families_differ h = ground (arith, eq_iff "f" "o", h)

update_housing_option-foreign_group_example :
    let updated = scanned (rewritten request "gb" houses.clock anns_flat) in
    ((update_housing_option plain request "a" houses).1 ≡ ok updated)
    × (updated.group_id ≡ "gb")
    × (updated.family_id ≢ "o")
update_housing_option-foreign_group_example =
    update_housing_option-foreign_group plain request anns_flat "a" houses "h1" "a" "gb" "o"
      request-IsFilled refl refl refl refl stored theirs passes families_differ

bob_writes_not : is_member writes "f" "b" houses.members ≡ false
unfolding is_member any_row
bob_writes_not = refl

write-isolated_example :
    options_of "f" (write plain (show "h1" false) "b" houses) ≡ options_of "f" houses
write-isolated_example =
    write-isolated plain "f" "b" "b" houses refl bob_writes_not (show "h1" false)
