-- ===== src/AuthLimit/Quota.antt =====
-- How many attempts get through.
use our_ne_zt_core.Common.{
  ℕ, ◌+◌, ◌-◌, ◌*◌, ◌≤◌, ◌<◌, ◌≡◌, ◌≢◌, ◌⊎◌, ap, ◌&&◌, if◌then◌else◌, leb, ◌==◌, Option, none, some,
  List, [], ◌∷◌, All, arith, Bool-cases, inl, inr, Option-cases,
}
use our_ne_zt_core.Domain.{Time}
use our_ne_zt_core.AuthLimit.{Limiter, clean, allow}
use our_ne_zt_core.AuthLimit.Table.{Bucket, lookup, IsMap, live, lookup-drop_expired}
use our_ne_zt_core.AuthLimit.Invariant.{
  IsLimiter, cfg-allow, allow-live, allow_dead, allow_other, allow-IsLimiter,
}

-- An attempt: when, and on which key. `limit_of` is the limit of a key, by its prefix.
pub record Attempt : Type 0 where
  pub at : Time
  pub key : ℕ

module _ (limit_of : ℕ → ℕ) where
  -- The attempts on the key `k` that get through, in a run of attempts on any keys.
  unfoldable pub admitted : ℕ → Limiter → List Attempt → ℕ
  admitted k l [] = 0
  admitted k l (a ∷ rest) =
      let (after, wait) = allow l a.at a.key (limit_of a.key) in
      (if (a.key == k) && (wait == 0) then 1 else 0) + admitted k after rest

abbrev pub Sorted : Time → List Attempt → Type 0
Sorted t [] = Unit {0}
Sorted t (a ∷ rest) = (t ≤ a.at) × Sorted a.at rest

abbrev pub Before : Time → List Attempt → Type 0
Before end = All (λ a. a.at < end)

-- How many more attempts a key may make before `end`, which is at most one window away.
abbrev budget : ℕ → Time → Option Bucket → ℕ
budget limit end none = limit
budget limit end (some b) = if leb end b.until then limit - b.count else (limit - b.count) + limit

step_same :
    (l : Limiter) (now end : Time) (k limit : ℕ)
    → IsMap l.buckets
    → 0 < l.cfg.window
    → 0 < limit
    → now < end
    → end ≤ now + l.cfg.window
    → let (after, wait) = allow l now k limit in
      (if wait == 0 then 1 else 0) + budget limit end (lookup k after.buckets)
      ≤ budget limit end (lookup k l.buckets)
unfolding live
step_same l now end k limit v w pos h e = elim (Option-cases (live now (lookup k l.buckets))) [
  | inl dead ↦ elim (Option-cases (lookup k l.buckets)) [
    | inl missing ↦ grind (arith, allow_dead l now k limit v w pos dead, missing)
    | inr (b, found) ↦ grind (arith, allow_dead l now k limit v w pos dead, found)
  ]
  | inr (b, running) ↦ elim (Option-cases (lookup k l.buckets)) [
    | inl missing ↦ ground (arith, running, missing)
    | inr (c, found) ↦ grind (arith, allow-live l now k limit v running, found)
  ]
]

budget-clean :
    (l : Limiter) (now end : Time) (k limit : ℕ)
    → IsMap l.buckets
    → now < end
    → budget limit end (lookup k (clean l now).buckets) ≤ budget limit end (lookup k l.buckets)
unfolding clean live
budget-clean l now end k limit v h =
    let dropped = lookup-drop_expired now k l.buckets v in
    elim (Option-cases (lookup k l.buckets)) [
      | inl missing ↦ ground (arith, dropped, missing)
      | inr (b, found) ↦ ground (arith, dropped, found)
    ]

module _ (limit_of : ℕ → ℕ) (k : ℕ) (positive : 0 < limit_of k) where
  admitted-budget :
      (t end : Time) (l : Limiter) (attempts : List Attempt)
      → IsLimiter t l
      → Sorted t attempts
      → Before end attempts
      → end ≤ t + l.cfg.window
      → admitted limit_of k l attempts ≤ budget (limit_of k) end (lookup k l.buckets)
  unfolding admitted
  admitted-budget t end l [] v s b e = omega arith
  admitted-budget t end l (a ∷ rest) v (s, ss) (b, bs) e =
      let after = (allow l a.at a.key (limit_of a.key)).0 in
      let window : after.cfg.window ≡ l.cfg.window =
        ap (λ c. c.window) (cfg-allow l a.at a.key (limit_of a.key)) in
      let ih =
        admitted-budget a.at end after rest (allow-IsLimiter t a.at l a.key (limit_of a.key) s v) ss
          bs (omega arith) in
      elim (Bool-cases (a.key == k)) [
        | inl mine ↦
            let same : a.key ≡ k = ground arith in
            let some_limit : 0 < limit_of a.key = rw same positive in
            ground (
              arith,
              ih,
              same,
              step_same l a.at end a.key (limit_of a.key) v.is_map v.window some_limit b
                  (omega arith),
            )
        | inr other ↦
            let differs : a.key ≢ k = λ e. ground arith in
            ground (
              arith,
              ih,
              allow_other l a.at k a.key (limit_of a.key) differs,
              budget-clean l a.at end k (limit_of k) v.is_map b,
            )
      ]

  -- Over any stretch of time no longer than a window, whatever else is attempted in between, a key
  -- that has no bucket at the start gets no more than its limit through, and any key at most twice
  -- its limit.
  pub admitted-le :
      (t end : Time) (l : Limiter) (attempts : List Attempt)
      → IsLimiter t l
      → Sorted t attempts
      → Before end attempts
      → end ≤ t + l.cfg.window
      → (admitted limit_of k l attempts ≤ 2 * limit_of k)
        × ((lookup k l.buckets ≢ none) ⊎ (admitted limit_of k l attempts ≤ limit_of k))
  admitted-le t end l attempts v s b e =
      let most = admitted-budget t end l attempts v s b e in
      elim (Option-cases (lookup k l.buckets)) [
        | inl missing ↦ (ground (arith, missing), inr (ground (arith, missing)))
        | inr (c, found) ↦ (ground (arith, found), inl (ground (arith, found)))
      ]
