-- ===== src/Server/Auth/Interceptor.antt =====
-- internal/server/auth_limit.go, without its log: the limit on the attempts that come from one address.
use text.Mathlib.Text.{◌==◌}
use our_ne_zt_core.Common.{ℕ, String, Bool, ◌||◌, Option, none, some, ltb, if◌then◌else◌}
use our_ne_zt_core.Domain.{Time}
use our_ne_zt_core.Errors.{Error, err}
use our_ne_zt_core.Action.{Action}
use our_ne_zt_core.AuthLimit.{allow_ip}
use our_ne_zt_core.Service.Accounts.{Accounts}
use our_ne_zt_core.Server.Errors.{to_status_error}

-- The methods whose attempts count, by their full names.
unfoldable pub is_limited_method : String → Bool
is_limited_method method =
    (method == "/ournezt.v1.AuthService/Login")
    || (method == "/ournezt.v1.AuthService/ChangePassword")
    || (method == "/ournezt.v1.AuthService/CreateUser")

-- `net.SplitHostPort`, and `netip.ParseAddr` with the text of the address it finds, without its zone and
-- unmapped from IPv6.
pub record Addresses : Type 0 where
  pub split_host_port : String → Option String
  pub parse_addr : String → Option String

unfoldable pub auth_peer_ip : Addresses → Option String → String
auth_peer_ip addresses none = "unknown"
auth_peer_ip addresses (some addr) = elim (addresses.split_host_port addr) [
  | none ↦ "unknown"
  | some host ↦ elim (addresses.parse_addr host) [ none ↦ "unknown" | some ip ↦ ip ]
]

unfoldable pub limit_attempts :
    {S A : Type 0}
    → (String → ℕ)
    → String
    → Time
    → String
    → Action (Accounts S) A
    → Action (Accounts S) A
limit_attempts sha256 ip now method handler s =
    if is_limited_method method
    then (let (limits, retry) = allow_ip sha256 s.limits now ip in
        let counted = record s { limits = limits } in
        if ltb 0 retry
        then (counted, err (to_status_error (Error.limited retry)))
        else handler counted)
    else handler s
