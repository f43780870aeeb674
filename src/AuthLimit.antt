-- ===== src/AuthLimit.antt =====
-- internal/authlimit/limiter.go. The clock is an argument of each call. SHA-256 is a parameter, since
-- only equality of digests matters; a digest is a number. The mutex makes each `allow` one step.
pub mod Table
pub mod Invariant
pub mod Quota
pub mod Blocked
pub mod Slots
use our_ne_zt_core.Common.{
  ℕ, zero, suc, ◌+◌, ◌-◌, ◌*◌, ◌<◌, Bool, true, false, not, ◌&&◌, ◌||◌, if◌then◌else◌, ltb, leb,
  ◌==◌, Option, none, some, List, [], ◌∷◌, length, keep, String,
}
use Prim.Native.String.{◌++◌}
use our_ne_zt_core.Common.Int64.{Int64, le}
use our_ne_zt_core.Common.Text.{trim_space}
use our_ne_zt_core.Domain.{Time, zero_time}
use our_ne_zt_core.Errors.{Error, limited, Result, ok, err}
use Table.{Bucket, Buckets, lookup, insert, drop_expired}

abbrev pub second : ℕ
second = 1_000_000_000

abbrev pub minute : ℕ
minute = 60 * second

pub record Config : Type 0 where
  pub ip_limit : Int64
  pub account_limit : Int64
  pub window : Int64
  pub max_concurrent : Int64
  pub max_entries : Int64

pub record Limiter : Type 0 where
  pub buckets : Buckets
  pub next_cleanup : Time
  pub cfg : Config
  -- How many values the channel `slots` holds; its capacity is `cfg.max_concurrent`.
  pub slots : ℕ

abbrev positive_or : Int64 → Int64 → Int64
positive_or value default = if le value 0 then default else value

unfoldable pub with_defaults : Config → Config
with_defaults cfg = record {
  ip_limit = positive_or cfg.ip_limit 30;
  account_limit = positive_or cfg.account_limit 5;
  window = positive_or cfg.window minute;
  max_concurrent = positive_or cfg.max_concurrent 2;
  max_entries = positive_or cfg.max_entries 20000;
}

-- `New`.
unfoldable pub new : Config → Limiter
new cfg = record { buckets = []; next_cleanup = zero_time; cfg = with_defaults cfg; slots = 0 }

-- The cleanup of `allow`, once for each window.
unfoldable pub clean : Limiter → Time → Limiter
clean l now =
    if ltb now l.next_cleanup
    then l
    else record l { buckets = drop_expired now l.buckets; next_cleanup = now + l.cfg.window }

-- The last part of `allow`: the bucket is spent, or the attempt is counted in it.
unfoldable pub charge : Limiter → Time → ℕ → ℕ → Bucket → Limiter × ℕ
charge l now key limit b =
    if leb limit b.count
    then (l, b.until - now)
    else (record l { buckets = insert key (record b { count = b.count + 1 }) l.buckets }, 0)

-- `allow` after the cleanup: the two tests on the bucket of the key.
unfoldable pub admit : Limiter → Time → ℕ → ℕ → Option Bucket → Limiter × ℕ
admit l now key limit none =
    if leb l.cfg.max_entries (length l.buckets)
    then (l, l.next_cleanup - now)
    else charge l now key limit (record { count = 0; until = now + l.cfg.window })
admit l now key limit (some b) =
    charge l now key limit
      (if ltb now b.until then b else record { count = 0; until = now + l.cfg.window })

-- `allow`, on the digest of the key. The second result is the time to wait, 0 if the attempt may go on.
unfoldable pub allow : Limiter → Time → ℕ → ℕ → Limiter × ℕ
allow l now key limit =
    let cleaned = clean l now in admit cleaned now key limit (lookup key cleaned.buckets)

module _ (sha256 : String → ℕ) where
  unfoldable pub allow_ip : Limiter → Time → String → Limiter × ℕ
  allow_ip l now ip = allow l now (sha256 ("ip:" ++ ip)) l.cfg.ip_limit

  -- `to_lower` is `strings.ToLower`.
  unfoldable pub allow_account : (String → String) → Limiter → Time → String → Limiter × ℕ
  allow_account to_lower l now account =
      allow l now (sha256 ("account:" ++ to_lower (trim_space account))) l.cfg.account_limit

-- `Acquire`: `ctx_err` is the error of the context, if it is done. A grant holds a slot.
unfoldable pub acquire : Option Error → Limiter → Limiter × Result (Unit {0})
acquire (some e) l = (l, err e)
acquire none l =
    if ltb l.slots l.cfg.max_concurrent
    then (record l { slots = l.slots + 1 }, ok tt)
    else (l, err (limited second))

-- The function that `Acquire` returns, which gives the slot back.
unfoldable pub release : Limiter → Limiter
release l = record l { slots = l.slots - 1 }
