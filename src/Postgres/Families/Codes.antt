-- ===== src/Postgres/Families/Codes.antt =====
-- The codes that let users join a family: who makes them, and what they are good for.
use text.Mathlib.TextPositions.{eq_refl}
use text.Mathlib.TextEquality.{eq_iff}
use our_ne_zt_core.Common.{
  String, Bool, true, false, not, ◌&&◌, Option, some, List, [], ◌∷◌, ◌++◌, ◌≡◌, ◌∙◌, refl, sym, ap,
  arith, Bool-cases, Option-cases, inl, inr,
}
use our_ne_zt_core.Common.Text.{is_empty, trim_space}
use our_ne_zt_core.Domain.{EntityId, Family, Time}
use our_ne_zt_core.Errors.{Error, Result, ok}
use our_ne_zt_core.Action.{proceed, proceed-ok}
use our_ne_zt_core.Server.Auth.Calls.{unless-ok}
use our_ne_zt_core.Postgres.Sql.{
  Outcome, done, failed, run, ask, settle, require, any_row, find_row, unique_violation,
  foreign_key_violation,
}
use our_ne_zt_core.Postgres.Sql.Unique.{any_row_mono}
use our_ne_zt_core.Postgres.Sql.Select.{
  find_row-holds, find_row-some, keep_last, put_in_order-alone,
}
use our_ne_zt_core.Postgres.Tables.{Engine, IsEngine, Database, InviteRow, cast}
use our_ne_zt_core.Postgres.Access.{granted, is_member, manages, select_member}
use our_ne_zt_core.Postgres.Users.Effects.{
  >>=-done, done_state, done_inj, settle-ok, not-true, require-done,
}
use our_ne_zt_core.Postgres.UserRows.{has_id}
use our_ne_zt_core.Postgres.FamilyRows.{
  joins, is_family, not_past, has_code, open_invite, newer_invite, first_family, new_invite,
  any_of_code,
}
use our_ne_zt_core.Postgres.Families.{
  generate_family_join_code, join_family_by_code, assert_family_manager, insert_invite, joined,
}

granted-ok :
    {S : Type 0} (o : Outcome Bool) (s t : S)
    → ◌≡◌ {A = S × Result (Unit {0})} (granted (ask (λ _. o) s)) (t, ok tt)
    → (s ≡ t) × (o ≡ done true)
granted-ok (done true) s t h = (ap (λ x. x.0) h, refl)
granted-ok (done false) s t h = cc
granted-ok (failed e) s t h = cc

open_invite-new :
    (family actor : EntityId) (hash : String) (until : Option Time) (made now : Time)
    → not_past now until ≡ true
    → open_invite hash now (new_invite family hash until actor made) ≡ true
open_invite-new family actor hash until made now h = ground (arith, eq_refl hash, h)

-- The one invitation with a code is the one that is found.
invited :
    (families : List Family) (invites : List InviteRow) (row : InviteRow) (now : Time) {f : Family}
    → any_row (has_code row.code_hash) invites ≡ false
    → open_invite row.code_hash now row ≡ true
    → find_row (is_family row.family_id) families ≡ some f
    → any_of_code row.code_hash now families (invites ++ row ∷ []) ≡ some f
unfolding first_family
invited families invites row now free live found =
    let q = open_invite row.code_hash now in
    let none_open = any_row_mono q (has_code row.code_hash) (λ i e. ground arith) invites free in
    rw
      (
        keep_last q invites row none_open live,
        put_in_order-alone newer_invite row,
        first_family,
        found,
      )
      refl

uuid_of :
    (engine : Engine) (s : String) (id : EntityId)
    → cast engine s ≡ done id
    → engine.uuid s ≡ some id
uuid_of engine s id h = elim (Option-cases (engine.uuid s)) [
  | inl e ↦ ground (arith, h, e)
  | inr (u, e) ↦ ground (arith, h, e)
]

find_family-id :
    (id : EntityId) (families : List Family) {f : Family}
    → find_row (is_family id) families ≡ some f
    → f.id ≡ id
find_family-id id families {f = f} h =
    ground (arith, find_row-holds (is_family id) families h, eq_iff f.id id)

module _ {F : Type 0} (engine : Engine) where
  insert_invite-done :
      (actor_id family_id hash : String) (until : Option Time) (db t : Database F) {a : Unit {0}}
      → insert_invite engine actor_id family_id hash until db ≡ done (t, a)
      → (family actor : EntityId) × (cast engine family_id ≡ done family)
        × (any_row (has_code hash) db.invites ≡ false)
        × (any_row (is_family family) db.families ≡ true)
        × (t ≡ record db {
          invites = db.invites ++ new_invite family hash until actor db.clock ∷ [];
        })
  insert_invite-done actor_id family_id hash until db t h =
      let (family, e1, k1) = >>=-done (cast engine family_id) _ h in
      let (actor, e2, k2) = >>=-done (cast engine actor_id) _ k1 in
      let used = any_row (has_code hash) db.invites in
      let (_, free, k3) = >>=-done (require (not used) unique_violation) _ k2 in
      let known = any_row (is_family family) db.families && any_row (has_id actor) db.users in
      let (_, there, end) = >>=-done (require known foreign_key_violation) _ k3 in
      (
        family,
        actor,
        e1,
        not-true _ (require-done _ _ free),
        ground (arith, require-done _ _ there),
        done_state _ _ _ _ end,
      )

  abbrev inserted : String → Option Time → EntityId → EntityId → Database F → Database F
  inserted hash until family actor db = record db {
    invites = db.invites ++ new_invite family hash until actor db.clock ∷ [];
  }

  -- The same tables at another time.
  abbrev pub at : Time → Database F → Database F
  at now db = record db { clock = now }

  -- The second statement of a join succeeds for a family and a user that there are.
  joined-ok :
      (user_id : String) (user : EntityId) (f : Family) (db : Database F)
      → cast engine f.id ≡ done f.id
      → any_row (is_family f.id) db.families ≡ true
      → cast engine user_id ≡ done user
      → any_row (has_id user) db.users ≡ true
      → (settle db (joined engine user_id f db)).1 ≡ ok f
  joined-ok user_id user f db c known cu there =
      elim (Bool-cases (any_row (joins f.id user) db.members)) [
        | inl e ↦ simp (c, cu, e) refl
        | inr e ↦ simp (c, cu, e, known, there) refl
      ]

  -- A user that there is joins by the code of an invitation that has not expired.
  join-invited :
      (now : Time) (user_id hash : String) (until : Option Time) (family actor user : EntityId)
      (db : Database F) (f : Family)
      → cast engine f.id ≡ done f.id
      → any_row (has_code hash) db.invites ≡ false
      → find_row (is_family family) db.families ≡ some f
      → any_row (is_family f.id) db.families ≡ true
      → is_empty (trim_space user_id) ≡ false
      → is_empty (trim_space hash) ≡ false
      → not_past now until ≡ true
      → cast engine user_id ≡ done user
      → any_row (has_id user) db.users ≡ true
      → (join_family_by_code engine user_id hash (at now (inserted hash until family actor db))).1
        ≡ ok f
  unfolding join_family_by_code
  join-invited now user_id hash until family actor user db f c free found known named filled live cu
        there =
      let row = new_invite family hash until actor db.clock in
      let fresh = open_invite-new family actor hash until db.clock now live in
      let first = invited db.families db.invites row now free fresh found in
      let last =
        joined-ok user_id user f (at now (inserted hash until family actor db)) c known cu there in
      rw (named, filled, first) last

  manager-of :
      (actor_id family_id : String) (db : Database F)
      → select_member engine manages actor_id family_id db ≡ done true
      → (family actor : EntityId) × (cast engine family_id ≡ done family)
        × (cast engine actor_id ≡ done actor)
        × (is_member manages family actor db.members ≡ true)
  manager-of actor_id family_id db h =
      let (family, e1, k1) = >>=-done (cast engine family_id) _ h in
      let (actor, e2, k2) = >>=-done (cast engine actor_id) _ k1 in
      (family, actor, e1, e2, done_inj true _ (sym k2))

  -- What a code is good for, in the tables that its making has left.
  abbrev LetsIn : EntityId → String → Option Time → Database F → Type 0
  LetsIn family hash until t =
      (now : Time) (user_id user : String)
      → is_empty (trim_space user_id) ≡ false
      → not_past now until ≡ true
      → cast engine user_id ≡ done user
      → any_row (has_id user) t.users ≡ true
      → (f : Family) × (f.id ≡ family)
        × ((join_family_by_code engine user_id hash (at now t)).1 ≡ ok f)

  invite-LetsIn :
      IsEngine engine
      → (family_id hash : String) (until : Option Time) (family actor : EntityId) (db : Database F)
      → is_empty (trim_space hash) ≡ false
      → cast engine family_id ≡ done family
      → any_row (has_code hash) db.invites ≡ false
      → any_row (is_family family) db.families ≡ true
      → LetsIn family hash until (inserted hash until family actor db)
  invite-LetsIn valid family_id hash until family actor db filled c free known now user_id user
        named live cu there =
      let (f, found) = find_row-some (is_family family) db.families known in
      let is_f = find_family-id family db.families found in
      let canonical : cast engine family ≡ done family =
        rw (valid.canonical family_id family (uuid_of engine family_id family c)) refl in
      let self : cast engine f.id ≡ done f.id = rw is_f canonical in
      let there_too : any_row (is_family f.id) db.families ≡ true = rw is_f known in
      (
        f,
        is_f,
        join-invited now user_id hash until family actor user db f self free found there_too named
            filled live cu there,
      )

  moved :
      (f g : EntityId) (hash : String) (until : Option Time) (s t : Database F)
      → f ≡ g
      → t ≡ s
      → LetsIn f hash until s
      → LetsIn g hash until t
  moved f g hash until s t e k h = rw (k, ← e) h

  generated :
      IsEngine engine
      → (actor_id family_id hash : String) (until : Option Time) (db t : Database F)
      → generate_family_join_code engine actor_id family_id hash until db ≡ (t, ok tt)
      → (family actor : EntityId) × (cast engine family_id ≡ done family)
        × (cast engine actor_id ≡ done actor)
        × (is_member manages family actor db.members ≡ true)
        × LetsIn family hash until t
  unfolding generate_family_join_code assert_family_manager
  generated valid actor_id family_id hash until db t h =
      let go = λ (_ : Unit {0}). run (insert_invite engine actor_id family_id hash until) in
      let check = granted (ask (select_member engine manages actor_id family_id) db) in
      let (filled, act) =
        unless-ok (is_empty (trim_space hash)) Error.invalid_argument
          (λ s. proceed go (granted (ask (select_member engine manages actor_id family_id) s))) db
          h in
      let (db1, _, checked, made) = proceed-ok go check act in
      let (same, allowed) =
        granted-ok (select_member engine manages actor_id family_id db) db db1 checked in
      let (family, actor, c, ca, is_manager) = manager-of actor_id family_id db allowed in
      let o = settle-ok db1 (insert_invite engine actor_id family_id hash until db1) made in
      let (family', actor', c', free, known, end) =
        insert_invite-done actor_id family_id hash until db1 t o in
      let lets_in =
        invite-LetsIn valid family_id hash until family' actor' db1 filled c' free known in
      (
        family,
        actor,
        c,
        ca,
        is_manager,
        moved family' family hash until (inserted hash until family' actor' db1) t
            (done_inj family family' (sym c ∙ c')) end lets_in,
      )

  -- Only an owner or an administrator of the named family makes a code for it: the actor of the call
  -- manages the family of the call. With that code any user that there is joins that family, at every
  -- time up to the code's expiry, on the tables that the call has left.
  pub generate_family_join_code-joins :
      IsEngine engine
      → (actor_id family_id hash : String) (until : Option Time) (db t : Database F)
      → generate_family_join_code engine actor_id family_id hash until db ≡ (t, ok tt)
      → (now : Time) (user_id user : String) → is_empty (trim_space user_id) ≡ false
      → not_past now until ≡ true
      → cast engine user_id ≡ done user
      → any_row (has_id user) t.users ≡ true
      → (family actor : EntityId) × (f : Family) × (cast engine family_id ≡ done family)
        × (cast engine actor_id ≡ done actor)
        × (is_member manages family actor db.members ≡ true)
        × (f.id ≡ family)
        × ((join_family_by_code engine user_id hash (at now t)).1 ≡ ok f)
  generate_family_join_code-joins valid actor_id family_id hash until db t h now user_id user named
        live cu there =
      let (family, actor, c, ca, is_manager, lets_in) =
        generated valid actor_id family_id hash until db t h in
      let (f, is_f, joins_it) = lets_in now user_id user named live cu there in
      (family, actor, f, c, ca, is_manager, is_f, joins_it)
