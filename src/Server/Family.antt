-- ===== src/Server/Family.antt =====
-- internal/server/family.go: the handlers for families.
use Prim.Native.String.{char_at}
use text.Mathlib.Text.{◌==◌}
use our_ne_zt_core.Common.{
  ℕ, ◌+◌, ◌%◌, String, Option, none, some, List, [], ◌∷◌, map, if◌then◌else◌,
}
use our_ne_zt_core.Common.Text.{is_empty, trim_space}
use our_ne_zt_core.Common.Int64.{Int64, le}
use our_ne_zt_core.Domain.{
  Time, Family, FamilyType, family_single, family_couple, family_family, family_shared_household,
  zero_time,
}
use our_ne_zt_core.Errors.{Error, Result, ok, err}
use our_ne_zt_core.Action.{Action, ◌>>=◌, ◌>>◌, give, throw, lift}
use our_ne_zt_core.Server.Errors.{handle}
use our_ne_zt_core.Server.Messages.{
  FamilyMessage, FamilyMemberMessage, CreateFamilyRequest, JoinFamilyRequest, ByIdRequest,
}
use our_ne_zt_core.Server.Mapping.{family_to_proto}
use our_ne_zt_core.Server.Access.{Authenticator, request_actor_id}
use our_ne_zt_core.Server.Repositories.{Families, FamilyMember}
use our_ne_zt_core.Server.Requests.{with_request}

-- `to_lower` is `strings.ToLower`.
unfoldable pub normalize_create_family_type : (String → String) → String → Result FamilyType
normalize_create_family_type to_lower raw =
    let kind = to_lower (trim_space raw) in
    if kind == family_single
    then ok family_single
    else if kind == family_couple
    then ok family_couple
    else if kind == family_family
    then ok family_family
    else if kind == family_shared_household
    then ok family_shared_household
    else err Error.invalid_argument

unfoldable pub domain_family_from_create_request : CreateFamilyRequest → FamilyType → Family
domain_family_from_create_request req kind = record {
  id = "";
  name = trim_space req.name;
  family_type = kind;
  created_at = zero_time;
  updated_at = zero_time;
}

abbrev pub alphabet : String
alphabet = "ABCDEFGHJKLMNPQRSTUVWXYZ23456789"

unfoldable pub code_of_bytes : List ℕ → String
code_of_bytes [] = String.[]
code_of_bytes (b ∷ bytes) = String.◌∷◌ (char_at alphabet (b % 32)) (code_of_bytes bytes)

-- `random` is `rand.Read` on a buffer of that many bytes.
unfoldable pub new_family_join_code :
    {S : Type 0} → (Int64 → Action S (List ℕ)) → Int64 → Action S String
new_family_join_code random length =
    random (if le length 0 then 10 else length) >>= λ bytes. give (code_of_bytes bytes)

unfoldable pub family_member_to_proto : FamilyMember → FamilyMemberMessage
family_member_to_proto m = record {
  family_id = m.family_id;
  user_id = m.user_id;
  display_name = m.display_name;
  role = m.role;
}

pub record FamilyServer (S : Type 0) : Type 0 where
  pub families : Families S
  pub auth : Option (Authenticator S)
  pub code_ttl : Int64
  pub now : Time
  pub hash_token : String → String
  pub random : Int64 → Action S (List ℕ)
  pub to_lower : String → String

-- `NewFamilyServer`'s default for the time that a code lasts, 7 days.
unfoldable pub default_code_ttl : Int64 → Int64
default_code_ttl code_ttl = if le code_ttl 0 then 604_800_000_000_000 else code_ttl

module _ {S : Type 0} (server : FamilyServer S) where
  unfoldable pub create_family : Option CreateFamilyRequest → Action S FamilyMessage
  create_family none = handle (throw Error.invalid_argument)
  create_family (some req) = handle (do
    owner_id ← request_actor_id server.auth req.owner_user_id
    kind ← lift (normalize_create_family_type server.to_lower req.family_type)
    family ← server.families.create_family (domain_family_from_create_request req kind) owner_id
    give (family_to_proto family))

  unfoldable pub get_family : Option ByIdRequest → Action S FamilyMessage
  get_family req = with_request server.auth req λ family_id viewer_id.
      server.families.get_family family_id viewer_id >>= λ family. give (family_to_proto family)

  unfoldable pub list_user_families : Option String → Action S (List FamilyMessage)
  list_user_families none = handle (throw Error.invalid_argument)
  list_user_families (some user) = handle (do
    user_id ← request_actor_id server.auth user
    families ← server.families.list_user_families user_id
    give (map family_to_proto families))

  unfoldable pub join_family_by_code : Option JoinFamilyRequest → Action S FamilyMessage
  join_family_by_code none = handle (throw Error.invalid_argument)
  join_family_by_code (some req) = handle (do
    user_id ← request_actor_id server.auth req.user_id
    if is_empty (trim_space req.code) then throw Error.invalid_argument else (do
      family ← server.families.join_family_by_code user_id (server.hash_token (trim_space req.code))
      give (family_to_proto family)))

  -- The code is the result; what is stored is its hash.
  unfoldable pub generate_family_join_code : Option ByIdRequest → Action S String
  generate_family_join_code req = with_request server.auth req λ family_id actor_id. (do
    code ← new_family_join_code server.random 10
    server.families.generate_family_join_code actor_id family_id (server.hash_token code)
        (some (server.now + server.code_ttl))
    give code)

  unfoldable pub list_family_members : Option ByIdRequest → Action S (List FamilyMemberMessage)
  list_family_members req = with_request server.auth req λ family_id actor_id.
      server.families.list_family_members actor_id family_id >>= λ members.
      give (map family_member_to_proto members)
