-- ===== src/Tests/Database.antt =====
-- A database with two users, one family and a session and a key of its owner.
use text.Mathlib.Text.{◌==◌}
use our_ne_zt_core.Common.{ℕ, String, true, false, none, some, [], ◌∷◌, refl, if◌then◌else◌}
use our_ne_zt_core.Domain.{User, Family, user_role_admin, user_role_user, role_owner, family_couple}
use our_ne_zt_core.Postgres.Tables.{Engine, IsEngine, Database, SessionRow, AccessKeyRow}

-- "A" is another spelling of "a"; a random UUID is "n".
abbrev pub engine : Engine
engine = record {
  uuid = λ s. if s == "A" then some "a" else some s;
  new_id = λ n. "n";
  lower = λ s. s;
  text_le = λ s t. true;
  uuid_le = λ s t. true;
}

-- Every text a UUID, which has one spelling.
abbrev pub plain : Engine
plain = record engine { uuid = λ s. some s }

pub plain-IsEngine : IsEngine plain
plain-IsEngine = record { canonical = λ s u h. refl; generated = λ n. refl }

abbrev pub same : String → String
same s = s

abbrev pub ann : User
ann = record {
  id = "a";
  email = "a@b.sg";
  display_name = "Ann";
  role = user_role_admin;
  password_hash = "secret";
  must_change_password = false;
  disabled_at = none;
  created_at = 1;
  updated_at = 1;
}

abbrev pub bob : User
bob = record ann { id = "b"; email = "b@b.sg"; display_name = "Bob"; role = user_role_user }

abbrev pub home : Family
home = record {
  id = "f";
  name = "Home";
  family_type = family_couple;
  created_at = 1;
  updated_at = 1;
}

abbrev pub ann_session : SessionRow
ann_session = record {
  user_id = "a";
  token_hash = "ta";
  expires_at = 100;
  revoked_at = none;
  created_at = 2;
}

abbrev pub bob_session : SessionRow
bob_session = record ann_session { user_id = "b"; token_hash = "tb" }

abbrev pub ann_key : AccessKeyRow
ann_key = record {
  user_id = "a";
  token_hash = "k";
  expires_at = 100;
  used_at = none;
  created_at = 2;
}

abbrev pub db : Database ℕ
db = record {
  users = ann ∷ bob ∷ [];
  sessions = ann_session ∷ bob_session ∷ [];
  access_keys = ann_key ∷ [];
  families = home ∷ [];
  members = record { family_id = "f"; user_id = "a"; role = role_owner; joined_at = 1 } ∷ [];
  invites = [];
  people = [];
  history = [];
  options = [];
  groups = [];
  criteria = [];
  answers = [];
  drawn = 0;
  clock = 10;
  has_history = true;
  has_linked_users = true;
}
