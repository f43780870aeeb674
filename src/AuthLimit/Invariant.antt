-- ===== src/AuthLimit/Invariant.antt =====
-- What every limiter keeps, and what one attempt does to the bucket of its key and of the others.
use our_ne_zt_core.Common.{
  ℕ, ◌+◌, ◌-◌, ◌≤◌, ◌<◌, ◌≡◌, ◌≢◌, ◌⊎◌, ap, ◌∙◌, if◌then◌else◌, ltb, leb, Option, none, some, [],
  ◌∷◌, length, arith, Bool-cases, inl, inr, Option-cases,
}
use our_ne_zt_core.Common.Int64.{le, modulus}
use our_ne_zt_core.Domain.{Time, zero_time}
use our_ne_zt_core.AuthLimit.{Config, Limiter, with_defaults, new, clean, charge, admit, allow}
use our_ne_zt_core.AuthLimit.Table.{
  Bucket, Buckets, lookup, insert, drop_expired, IsMap, live, lookup-insert, insert-IsMap,
  length-insert, drop_expired-IsMap, lookup-drop_expired, length-drop_expired-le,
}

-- Every bucket ends by `top`.
abbrev pub EndsBy : Time → Buckets → Type 0
EndsBy top [] = Unit {0}
EndsBy top ((k, b) ∷ m) = (b.until ≤ top) × EndsBy top m

-- A limiter as it stands after attempts up to the time `t`.
pub record IsLimiter (t : Time) (l : Limiter) : Type 0 where
  pub is_map : IsMap l.buckets
  pub bounded : length l.buckets ≤ l.cfg.max_entries
  pub ends : EndsBy (t + l.cfg.window) l.buckets
  pub cleanup : l.next_cleanup ≤ t + l.cfg.window
  pub window : 0 < l.cfg.window
  pub entries : 0 < l.cfg.max_entries

EndsBy-mono : (s t : Time) (m : Buckets) → s ≤ t → EndsBy s m → EndsBy t m
EndsBy-mono s t [] h e = tt
EndsBy-mono s t ((k, b) ∷ m) h (e, es) = (omega arith, EndsBy-mono s t m h es)

EndsBy-insert :
    (t : Time) (k : ℕ) (b : Bucket) (m : Buckets)
    → b.until ≤ t
    → EndsBy t m
    → EndsBy t (insert k b m)
unfolding insert
EndsBy-insert t k b [] h e = (h, tt)
EndsBy-insert t k b ((j, c) ∷ m) h (e, es) = ground (arith, EndsBy-insert t k b m h es)

EndsBy-drop_expired : (t now : Time) (m : Buckets) → EndsBy t m → EndsBy t (drop_expired now m)
unfolding drop_expired
EndsBy-drop_expired t now [] e = tt
EndsBy-drop_expired t now ((j, c) ∷ m) (e, es) = ground (arith, EndsBy-drop_expired t now m es)

EndsBy-lookup :
    (t : Time) (k : ℕ) (m : Buckets) {b : Bucket} → EndsBy t m → lookup k m ≡ some b → b.until ≤ t
unfolding lookup
EndsBy-lookup t k [] e h = cc
EndsBy-lookup t k ((j, c) ∷ m) {b} (e, es) h = ground (arith, EndsBy-lookup t k m {b = b} es)

clean-IsLimiter :
    (t now : Time) (l : Limiter) → t ≤ now → IsLimiter t l → IsLimiter now (clean l now)
unfolding clean
clean-IsLimiter t now l h v =
    let later =
      EndsBy-mono (t + l.cfg.window) (now + l.cfg.window) l.buckets (omega arith) v.ends in
    elim (Bool-cases (ltb now l.next_cleanup)) [
      | inl early ↦
          rw (early, clean)
            (record {
              is_map = v.is_map;
              bounded = v.bounded;
              ends = later;
              cleanup = omega (arith, v.cleanup);
              window = v.window;
              entries = v.entries;
            })
      | inr due ↦
          rw (due, clean)
            (record {
              is_map = drop_expired-IsMap now l.buckets v.is_map;
              bounded = omega (arith, v.bounded, length-drop_expired-le now l.buckets);
              ends = EndsBy-drop_expired (now + l.cfg.window) now l.buckets later;
              cleanup = omega arith;
              window = v.window;
              entries = v.entries;
            })
    ]

-- After the cleanup the next one is still to come, and the configuration is as before.
clean_next :
    (l : Limiter) (now : Time)
    → 0 < l.cfg.window
    → (now < (clean l now).next_cleanup) × ((clean l now).cfg ≡ l.cfg)
unfolding clean
clean_next l now h = ground arith

live-clean :
    (l : Limiter) (now : Time) (k : ℕ)
    → IsMap l.buckets
    → live now (lookup k (clean l now).buckets) ≡ live now (lookup k l.buckets)
unfolding clean live
live-clean l now k v = grind (arith, lookup-drop_expired now k l.buckets v)

live-some :
    (now : Time) (o : Option Bucket) {b : Bucket}
    → live now o ≡ some b
    → (o ≡ some b) × (now < b.until)
unfolding live
live-some now none e = cc
live-some now (some c) e = ground arith

-- An attempt on a key whose window still runs: it is counted while the limit allows, and refused for
-- the rest of the window otherwise. The window's end stays.
pub allow-live :
    (l : Limiter) (now : Time) (k limit : ℕ) {b : Bucket}
    → IsMap l.buckets
    → live now (lookup k l.buckets) ≡ some b
    → let (after, wait) = allow l now k limit in
      (lookup k after.buckets
        ≡ some (record b { count = if leb limit b.count then b.count else b.count + 1 }))
      × (wait ≡ (if leb limit b.count then b.until - now else 0))
      × (now < b.until)
unfolding allow admit charge
allow-live l now k limit {b} v e =
    let (found, running) = live-some now (lookup k l.buckets) e in
    let (kept, _) = live-some now (lookup k (clean l now).buckets) (live-clean l now k v ∙ e) in
    ground (arith, kept, lookup-insert k k (record b { count = b.count + 1 }) (clean l now).buckets)

-- An attempt on a key with no running window opens one, unless the key has no bucket and the table
-- is full of running windows; then it is refused until the next cleanup.
pub allow_dead :
    (l : Limiter) (now : Time) (k limit : ℕ)
    → IsMap l.buckets
    → 0 < l.cfg.window
    → 0 < limit
    → live now (lookup k l.buckets) ≡ none
    → let (after, wait) = allow l now k limit in
      ((wait ≡ 0)
        × (lookup k after.buckets ≡ some (record { count = 1; until = now + l.cfg.window })))
      ⊎ ((0 < wait) × (lookup k after.buckets ≡ none) × (l.cfg.max_entries ≤ length after.buckets))
unfolding allow admit charge live
allow_dead l now k limit v w h e =
    let (next, cfg) = clean_next l now w in
    let same : (clean l now).cfg.window ≡ l.cfg.window = ap (λ c. c.window) cfg in
    let most : (clean l now).cfg.max_entries ≡ l.cfg.max_entries = ap (λ c. c.max_entries) cfg in
    let cleaned = clean l now in
    let gone = live-clean l now k v ∙ e in
    let opened =
      lookup-insert k k (record { count = 1; until = now + cleaned.cfg.window }) cleaned.buckets in
    elim (Option-cases (lookup k cleaned.buckets)) [
      | inl missing ↦ elim (Bool-cases (leb cleaned.cfg.max_entries (length cleaned.buckets))) [
        | inl full ↦ inr (
          ground (arith, missing, full),
          ground (arith, missing, full),
          ground (arith, missing, full),
        )
        | inr room ↦
            inl (ground (arith, missing, room), ground (arith, missing, room, opened, same))
      ]
      | inr (b, found) ↦
          inl (ground (arith, found, gone), ground (arith, found, gone, opened, same))
    ]

pub allow_other :
    (l : Limiter) (now : Time) (j k limit : ℕ)
    → k ≢ j
    → lookup j (allow l now k limit).0.buckets ≡ lookup j (clean l now).buckets
unfolding allow admit charge
allow_other l now j k limit h = grind (arith, lookup-insert)

charge-IsLimiter :
    (l : Limiter) (now : Time) (k limit : ℕ) (b : Bucket)
    → IsLimiter now l
    → b.until ≤ now + l.cfg.window
    → length (insert k b l.buckets) ≤ l.cfg.max_entries
    → IsLimiter now (charge l now k limit b).0
unfolding charge
charge-IsLimiter l now k limit b v h size =
    let b' : Bucket = record b { count = b.count + 1 } in
    elim (Bool-cases (leb limit b.count)) [
      | inl spent ↦ rw (spent, charge) v
      | inr left ↦
          rw (left, charge)
            (record {
              is_map = insert-IsMap k b' l.buckets v.is_map;
              bounded =
                  grind (arith, size, length-insert k b' l.buckets, length-insert k b l.buckets);
              ends = EndsBy-insert (now + l.cfg.window) k b' l.buckets h v.ends;
              cleanup = v.cleanup;
              window = v.window;
              entries = v.entries;
            })
    ]

-- Every attempt keeps the limiter well formed: no digest stands twice, there are never more buckets
-- than the configuration allows, and every bucket and the next cleanup end within a window from now.
pub allow-IsLimiter :
    (t now : Time) (l : Limiter) (k limit : ℕ)
    → t ≤ now
    → IsLimiter t l
    → IsLimiter now (allow l now k limit).0
unfolding allow admit
allow-IsLimiter t now l k limit h v =
    let cleaned = clean l now in
    let w = clean-IsLimiter t now l h v in
    let new_bucket : Bucket = record { count = 0; until = now + cleaned.cfg.window } in
    elim (Option-cases (lookup k cleaned.buckets)) [
      | inl missing ↦ elim (Bool-cases (leb cleaned.cfg.max_entries (length cleaned.buckets))) [
        | inl full ↦ rw (missing, admit, full) w
        | inr room ↦
            rw (missing, admit, room)
              (charge-IsLimiter cleaned now k limit new_bucket w (omega arith)
                (grind (arith, missing, room, length-insert k new_bucket cleaned.buckets)))
      ]
      | inr (b, found) ↦
          let c : Bucket = if ltb now b.until then b else new_bucket in
          let ends : c.until ≤ now + cleaned.cfg.window =
            ground
              (arith, EndsBy-lookup (now + cleaned.cfg.window) k cleaned.buckets w.ends found) in
          rw (found, admit)
            (charge-IsLimiter cleaned now k limit c w ends
              (grind (arith, found, w.bounded, length-insert k c cleaned.buckets)))
    ]

-- `New` makes such a limiter from every configuration of `int` fields, with every field positive.
pub new-IsLimiter :
    (cfg : Config)
    → cfg.window < modulus
    → cfg.max_entries < modulus
    → IsLimiter zero_time (new cfg)
unfolding new with_defaults le
new-IsLimiter cfg h k = ground arith

-- No attempt changes the configuration.
pub cfg-allow : (l : Limiter) (now : Time) (k limit : ℕ) → (allow l now k limit).0.cfg ≡ l.cfg
unfolding allow admit charge clean
cfg-allow l now k limit = ground arith
