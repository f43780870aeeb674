-- ===== src/Tests/AuthLimit.antt =====
-- Package authlimit: the cases of limiter_test.go on a model digest, and instances of the theorems.
use our_ne_zt_core.Common.{
  inl, ℕ, ◌+◌, ◌*◌, ◌≤◌, ◌<◌, ◌≡◌, ◌≢◌, ◌↔◌, ◌⊎◌, refl, none, some, List, [], ◌∷◌, arith, String,
}
use our_ne_zt_core.Common.Int64.{le}
use our_ne_zt_core.Common.Text.{rune_count, trim_space}
use our_ne_zt_core.Domain.{zero_time}
use our_ne_zt_core.Errors.{ok, err, limited}
use our_ne_zt_core.AuthLimit.{
  Config, Limiter, new, with_defaults, allow, allow_account, clean, admit, charge, acquire, minute,
  second,
}
use our_ne_zt_core.AuthLimit.Table.{Bucket, lookup, insert, drop_expired}
use our_ne_zt_core.AuthLimit.Invariant.{IsLimiter, allow-IsLimiter, new-IsLimiter}
use our_ne_zt_core.AuthLimit.Quota.{Attempt, admitted, admitted-le}
use our_ne_zt_core.AuthLimit.Blocked.{after, spent-blocked, allow_again}
use our_ne_zt_core.AuthLimit.Slots.{Work, idle, Reach, Step, Reach-acquire}

abbrev pub small : Config
small = record {
  ip_limit = 2;
  account_limit = 1;
  window = minute;
  max_concurrent = 1;
  max_entries = 2;
}

-- A digest for tests: the number of characters.
abbrev digest : String → ℕ
digest = rune_count

abbrev limit_of : ℕ → ℕ
limit_of key = 2

abbrev at_second : ℕ → ℕ → Attempt
at_second s k = record { at = zero_time + s * second; key = k }

-- Two attempts on the key 7 get through, the third waits for the rest of the minute.
abbrev burst : List Attempt
burst = at_second 0 7 ∷ at_second 1 7 ∷ at_second 2 9 ∷ at_second 3 7 ∷ []

third_refused : admitted limit_of 7 (new small) burst ≡ 2
unfolding admitted new with_defaults allow clean admit charge lookup insert drop_expired le
third_refused = refl

-- The account is trimmed and lowered before it is counted.
same_account :
    let first = allow_account digest (λ s. s) (new small) zero_time "alice" in
    (first.1 ≡ 0) × ((allow_account digest (λ s. s) first.0 zero_time " alice ").1 ≡ minute)
unfolding allow_account rune_count trim_space new with_defaults allow clean admit charge lookup
    insert drop_expired le
same_account = (refl, refl)

allow-IsLimiter_example : IsLimiter (zero_time + 5) (allow (new small) (zero_time + 5) 7 2).0
allow-IsLimiter_example =
    allow-IsLimiter zero_time (zero_time + 5) (new small) 7 2 (omega arith)
      (new-IsLimiter small (omega arith) (omega arith))

window_lem : (zero_time + minute) ≤ zero_time + (new small).cfg.window
unfolding new with_defaults le
window_lem = omega arith

admitted-le_example :
    (admitted limit_of 7 (new small) burst ≤ 2 * 2)
    × ((lookup 7 (new small).buckets ≢ none) ⊎ (admitted limit_of 7 (new small) burst ≤ 2))
admitted-le_example =
    admitted-le limit_of 7 (omega arith) zero_time (zero_time + minute) (new small) burst
      (new-IsLimiter small (omega arith) (omega arith)) (omega arith) (omega arith) window_lem

-- A limiter whose key 7 is spent until the end of the first minute.
abbrev spent_bucket : Bucket
spent_bucket = record { count = 2; until = zero_time + minute }

abbrev spent : Limiter
spent = record {
  buckets = (7, spent_bucket) ∷ (9, spent_bucket) ∷ [];
  next_cleanup = zero_time + minute;
  cfg = small;
  slots = 0;
}

spent-IsLimiter : IsLimiter zero_time spent
unfolding lookup
spent-IsLimiter = record {
  is_map = (refl, (refl, tt));
  bounded = omega arith;
  ends = omega arith;
  cleanup = omega arith;
  window = omega arith;
  entries = omega arith;
}

spent_found : lookup 7 spent.buckets ≡ some spent_bucket
unfolding lookup
spent_found = refl

spent-blocked_example :
    (admitted limit_of 7 spent burst ≡ 0)
    × (lookup 7 (after limit_of spent burst).buckets ≡ some spent_bucket)
spent-blocked_example =
    spent-blocked limit_of 7 zero_time spent spent_bucket burst spent-IsLimiter spent_found
      (omega arith) (omega arith) (omega arith)

allow_again_example : (allow spent (zero_time + minute) 7 2).1 ≡ 0
allow_again_example =
    allow_again zero_time (zero_time + minute) spent 7 2 spent-IsLimiter (omega arith)
      (inl (spent_bucket, spent_found, omega arith))

busy : Reach (idle small) (record { limiter = record (new small) { slots = 1 }; holders = 1 })
unfolding new with_defaults acquire le
busy = Reach.next Reach.here (Step.start (idle small) refl)

Reach-acquire_example :
    let w : Work = record { limiter = record (new small) { slots = 1 }; holders = 1 } in
    let r = acquire none w.limiter in
    let most = (with_defaults small).max_concurrent in
    (1 ≤ most)
    × ((r.1 ≡ ok tt) ↔ (1 < most))
    × ((r ≡ (w.limiter, err (limited second))) ↔ (1 ≡ most))
Reach-acquire_example = Reach-acquire small _ busy
