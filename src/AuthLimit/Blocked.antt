-- ===== src/AuthLimit/Blocked.antt =====
-- A key that has used up its limit: blocked until its window ends, and admitted again then.
use our_ne_zt_core.Common.{
  ℕ, ◌≤◌, ◌<◌, ◌≡◌, ◌≢◌, refl, ltb, ◌==◌, some, none, ◌-◌, ◌⊎◌, length, List, [], ◌∷◌, arith,
  Bool-cases, inl, inr,
}
use our_ne_zt_core.Domain.{Time}
use our_ne_zt_core.AuthLimit.{Limiter, clean, allow, admit, charge}
use our_ne_zt_core.AuthLimit.Table.{
  Bucket, IsMap, lookup, live, lookup-drop_expired, length-drop_expired-le, length-drop_expired-lt,
}
use our_ne_zt_core.AuthLimit.Invariant.{IsLimiter, allow-live, allow_other, allow-IsLimiter}
use our_ne_zt_core.AuthLimit.Quota.{Attempt, admitted, Sorted, Before}

module _ (limit_of : ℕ → ℕ) where
  -- The limiter after a run of attempts.
  unfoldable pub after : Limiter → List Attempt → Limiter
  after l [] = l
  after l (a ∷ rest) = after (allow l a.at a.key (limit_of a.key)).0 rest

module _ (limit_of : ℕ → ℕ) (k : ℕ) where
  kept :
      (l : Limiter) (now t j limit : ℕ) (b : Bucket)
      → IsLimiter t l
      → lookup k l.buckets ≡ some b
      → now < b.until
      → k ≢ j
      → lookup k (allow l now j limit).0.buckets ≡ some b
  unfolding clean live
  kept l now t j limit b v found h differs = ground (
    arith,
    found,
    allow_other l now k j limit (λ e. differs (ground arith)),
    lookup-drop_expired now k l.buckets v.is_map,
  )

  stays :
      (l : Limiter) (now t : ℕ) (b : Bucket)
      → IsLimiter t l
      → lookup k l.buckets ≡ some b
      → limit_of k ≤ b.count
      → now < b.until
      → (lookup k (allow l now k (limit_of k)).0.buckets ≡ some b)
        × (0 < (allow l now k (limit_of k)).1)
  unfolding live
  stays l now t b v found spent h =
      let running : live now (lookup k l.buckets) ≡ some b = ground (arith, found) in
      ground (arith, allow-live l now k (limit_of k) v.is_map running)

  -- Once a key has used up its limit, none of its attempts gets through before its window ends,
  -- whatever else is attempted, and no retry moves the end of the window.
  pub spent-blocked :
      (t : Time) (l : Limiter) (b : Bucket) (attempts : List Attempt)
      → IsLimiter t l
      → lookup k l.buckets ≡ some b
      → limit_of k ≤ b.count
      → Sorted t attempts
      → Before b.until attempts
      → (admitted limit_of k l attempts ≡ 0)
        × (lookup k (after limit_of l attempts).buckets ≡ some b)
  unfolding admitted after
  spent-blocked t l b [] v found spent s h = (refl, found)
  spent-blocked t l b (a ∷ rest) v found spent (s, ss) (h, hs) =
      let next = (allow l a.at a.key (limit_of a.key)).0 in
      let w = allow-IsLimiter t a.at l a.key (limit_of a.key) s v in
      elim (Bool-cases (a.key == k)) [
        | inl mine ↦
            let same : a.key ≡ k = ground arith in
            let (still, refused) = stays l a.at t b v found spent h in
            let held : lookup k next.buckets ≡ some b = rw same still in
            ground (arith, same, refused, spent-blocked a.at next b rest w held spent ss hs)
        | inr other ↦
            let held = kept l a.at t a.key (limit_of a.key) b v found h (λ e. ground arith) in
            ground (arith, other, spent-blocked a.at next b rest w held spent ss hs)
      ]

-- An attempt on a key that has used up its limit is told the rest of the window, and its bucket stays.
pub refused :
    (l : Limiter) (now : Time) (k limit : ℕ) (b : Bucket)
    → IsMap l.buckets
    → lookup k l.buckets ≡ some b
    → limit ≤ b.count
    → now < b.until
    → (lookup k (allow l now k limit).0.buckets ≡ some b)
      × ((allow l now k limit).1 ≡ b.until - now)
unfolding live
refused l now k limit b v found spent h =
    let running : live now (lookup k l.buckets) ≡ some b = ground (arith, found) in
    ground (arith, allow-live l now k limit v running)

-- Where the bucket of a key still stands when its window has ended, the next attempt gets through.
again-standing :
    (t now : Time) (l : Limiter) (k limit : ℕ) (b : Bucket)
    → IsLimiter t l
    → 0 < limit
    → lookup k l.buckets ≡ some b
    → b.until ≤ now
    → (allow l now k limit).1 ≡ 0
unfolding allow admit charge clean live
again-standing t now l k limit b v h found over = elim (Bool-cases (ltb now l.next_cleanup)) [
  | inl early ↦ ground (arith, early, found)
  | inr due ↦ ground (
    arith,
    due,
    found,
    v.bounded,
    lookup-drop_expired now k l.buckets v.is_map,
    length-drop_expired-lt now k l.buckets b found over,
  )
]

-- A key that has no bucket gets through where the table has room.
again-dropped :
    (now : Time) (l : Limiter) (k limit : ℕ)
    → IsMap l.buckets
    → 0 < limit
    → lookup k l.buckets ≡ none
    → length l.buckets < l.cfg.max_entries
    → (allow l now k limit).1 ≡ 0
unfolding allow admit charge clean live
again-dropped now l k limit v h absent room = elim (Bool-cases (ltb now l.next_cleanup)) [
  | inl early ↦ ground (arith, early, absent)
  | inr due ↦ ground (
    arith,
    due,
    absent,
    lookup-drop_expired now k l.buckets v,
    length-drop_expired-le now l.buckets,
  )
]

-- A key with no running window: its bucket stands and has ended, or it has none and the table has room.
abbrev pub IsOver : Time → ℕ → Limiter → Type 0
IsOver now k l =
    ((b : Bucket) × (lookup k l.buckets ≡ some b) × (b.until ≤ now))
    ⊎ ((lookup k l.buckets ≡ none) × (length l.buckets < l.cfg.max_entries))

-- The next attempt on a key gets through when the key's window has ended and its bucket still stands in
-- the table, however full the table is; and when a cleanup has dropped the bucket, or the key never had
-- one, as long as the table has room.
pub allow_again :
    (t now : Time) (l : Limiter) (k limit : ℕ)
    → IsLimiter t l
    → 0 < limit
    → IsOver now k l
    → (allow l now k limit).1 ≡ 0
allow_again t now l k limit v h (inl (b, found, over)) =
    again-standing t now l k limit b v h found over
allow_again t now l k limit v h (inr (absent, room)) =
    again-dropped now l k limit v.is_map h absent room
