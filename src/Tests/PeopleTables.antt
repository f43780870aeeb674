-- ===== src/Tests/PeopleTables.antt =====
-- The tables of people: instances of the theorems.
use our_ne_zt_core.Common.{false, ℕ, [], ◌∷◌, ◌≡◌, refl}
use our_ne_zt_core.Domain.{PersonProfile}
use our_ne_zt_core.Postgres.Sql.{any_row}
use our_ne_zt_core.Postgres.Tables.{Database}
use our_ne_zt_core.Postgres.Access.{is_member, writes}
use our_ne_zt_core.Postgres.PersonRows.{history_of, stored}
use our_ne_zt_core.Postgres.People.Isolation.{update, edit, members_of, edit-isolated}
use our_ne_zt_core.Tests.Samples.{alice}
use our_ne_zt_core.Tests.Database.{plain, same, ann, db}

-- A user with an id as the database writes them, and a person who is linked to the user.
abbrev linked : Database ℕ
linked = record db { users = record ann { id = "00000000-0000-0000-0000-00000000000a" } ∷ db.users }

abbrev request : PersonProfile
request = record alice { family_id = "f"; linked_user_id = " 00000000-0000-0000-0000-00000000000a" }

abbrev created : PersonProfile
created = stored request "n" "f" "00000000-0000-0000-0000-00000000000a" 10 10

abbrev after : Database ℕ
after = record linked { people = created ∷ []; history = history_of created ∷ []; drawn = 1 }

bob_writes_not : is_member writes "f" "b" after.members ≡ false
unfolding is_member any_row
bob_writes_not = refl

edit-isolated_example :
    members_of "f" (edit plain same (update (record created { age = 90 })) "b" after)
    ≡ members_of "f" after
edit-isolated_example =
    edit-isolated plain same "f" "b" "b" after refl bob_writes_not
      (update (record created { age = 90 }))
