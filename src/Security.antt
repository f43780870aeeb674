-- ===== src/Security.antt =====
-- internal/platform/security: the stored form of a password, and session tokens. Randomness, Argon2,
-- SHA-256, base64 and the verbs of package `fmt` are third-party or the standard library's: parameters.
use Prim.Native.Char.{code}
use Prim.Native.String.{◌++◌}
use text.Mathlib.Text.{◌==◌}
use our_ne_zt_core.Common.{
  ℕ, String, Bool, true, false, not, ◌&&◌, Option, none, some, List, [], ◌∷◌, if◌then◌else◌, length,
  leb, ◌%◌, ◌^◌,
}
use our_ne_zt_core.Common.Text.{is_empty, trim_space}
use our_ne_zt_core.Common.Int64.{Int64, lt}
use our_ne_zt_core.Errors.{Error, Result, ok, err, ◌>>=◌}
use our_ne_zt_core.Action.{Action, proceed, throw}
use our_ne_zt_core.Service.Accounts.{Security}

abbrev pub Bytes : Type 0
Bytes = List ℕ

pub record Argon2Params : Type 0 where
  pub memory_kb : ℕ
  pub iterations : ℕ
  pub parallelism : ℕ
  pub salt_length : ℕ
  pub key_length : ℕ

abbrev pub default_argon2_params : Argon2Params
default_argon2_params = record {
  memory_kb = 65536;
  iterations = 3;
  parallelism = 2;
  salt_length = 16;
  key_length = 32;
}

pub record Crypto (S : Type 0) : Type 0 where
  -- `rand.Read` on a buffer of this many bytes.
  pub random : ℕ → Action S Bytes
  -- `argon2.IDKey`: password, salt, iterations, memory, parallelism, length of the key.
  pub id_key : String → Bytes → ℕ → ℕ → ℕ → ℕ → Bytes
  -- `base64.RawStdEncoding` and `base64.RawURLEncoding`.
  pub encode : Bytes → String
  pub decode : String → Result Bytes
  pub encode_url : Bytes → String
  pub sha256 : String → Bytes
  -- `m=%d,t=%d,p=%d`, printed and scanned, and `v=%d` scanned.
  pub print_params : ℕ → ℕ → ℕ → String
  pub scan_params : String → Option (ℕ × ℕ × ℕ)
  pub scan_version : String → Option ℕ

-- The numbers, the salt and the key of a stored hash.
pub record Stored : Type 0 where
  pub params : ℕ × ℕ × ℕ
  pub salt : Bytes
  pub key : Bytes

-- `strings.Split(s, "$")`.
unfoldable pub split : String → List String
split String.[] = "" ∷ []
split (String.◌∷◌ c s) =
    let rest = split s in
    if leb (code c) 36 && leb 36 (code c)
    then "" ∷ rest
    else elim rest [ [] ↦ [] | part ∷ parts ↦ String.◌∷◌ c part ∷ parts ]

unfoldable pub bytes_equal : Bytes → Bytes → Bool
bytes_equal [] [] = true
bytes_equal [] (y ∷ ys) = false
bytes_equal (x ∷ xs) [] = false
bytes_equal (x ∷ xs) (y ∷ ys) = let rest = bytes_equal xs ys in (leb x y && leb y x) && rest

module _ {S : Type 0} (crypto : Crypto S) where
  unfoldable pub hash_password : Argon2Params → String → Action S String
  hash_password params password =
      if is_empty (trim_space password)
      then throw (Error.other "password is required")
      else (let p = if leb params.memory_kb 0 then default_argon2_params else params in
          λ s.
            proceed
              (λ salt t. (
                t,
                ok (
                    "$argon2id$v=19$"
                    ++ crypto.print_params p.memory_kb p.iterations p.parallelism
                    ++ "$"
                    ++ crypto.encode salt
                    ++ "$"
                    ++ crypto.encode (
                        crypto.id_key password salt p.iterations p.memory_kb p.parallelism
                          p.key_length)),
              ))
              (crypto.random p.salt_length s))

  abbrev or_fail {ℓ} : {A : Type ℓ} → String → Option A → Result A
  or_fail message none = err (Error.other message)
  or_fail message (some a) = ok a

  abbrev is_version : ℕ → Result (Unit {0})
  is_version v =
      if leb v 19 && leb 19 v then ok tt else err (Error.other "unsupported argon2id version")

  -- `decodeArgon2idHash`, on the parts between the dollar signs.
  unfoldable pub decode_parts : List String → Result Stored
  decode_parts (p0 ∷ algorithm ∷ version ∷ params ∷ salt ∷ key ∷ []) =
      if not (algorithm == "argon2id") then err (Error.other "invalid argon2id hash") else (do
        v ← or_fail "unsupported argon2id version" (crypto.scan_version version)
        right ← is_version v
        numbers ← or_fail "invalid argon2id parameters" (crypto.scan_params params)
        salt_bytes ← crypto.decode salt
        key_bytes ← crypto.decode key
        ok (record { params = numbers; salt = salt_bytes; key = key_bytes }))
  decode_parts parts = err (Error.other "invalid argon2id hash")

  unfoldable pub decode_argon2id_hash : String → Result Stored
  decode_argon2id_hash encoded = decode_parts (split encoded)

  unfoldable pub verify_password : String → String → Result Bool
  verify_password password encoded = do
    stored ← decode_argon2id_hash encoded
    let (memory, iterations, parallelism) = stored.params
    let size = length stored.key % 2 ^ 32
    ok (
        bytes_equal (crypto.id_key password stored.salt iterations memory parallelism size)
          stored.key)

  -- `NewSessionToken`: never fewer than 32 bytes.
  unfoldable pub new_session_token : Int64 → Action S String
  new_session_token byte_length =
      let size = if lt byte_length 32 then 32 else byte_length in
      λ s. proceed (λ bytes t. (t, ok (crypto.encode_url bytes))) (crypto.random size s)

  unfoldable pub hash_token : String → String
  hash_token token = crypto.encode_url (crypto.sha256 token)

  -- The interface of the account service, filled.
  abbrev pub security : Argon2Params → Security S
  security params = record {
    hash_password = hash_password params;
    verify_password = verify_password;
    new_session_token = new_session_token;
    hash_token = hash_token;
  }
