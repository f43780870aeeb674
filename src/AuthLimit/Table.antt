-- ===== src/AuthLimit/Table.antt =====
-- The map from digests to buckets, as an association list.
use our_ne_zt_core.Common.{
  ℕ, suc, ◌≤◌, ◌<◌, ◌≡◌, ◌≢◌, refl, if◌then◌else◌, ltb, ◌==◌, Option, none, some, List, [], ◌∷◌,
  length, arith,
}
use our_ne_zt_core.Domain.{Time}

pub record Bucket : Type 0 where
  pub count : ℕ
  pub until : Time

abbrev pub Buckets : Type 0
Buckets = List (ℕ × Bucket)

unfoldable pub lookup : ℕ → Buckets → Option Bucket
lookup k [] = none
lookup k ((j, b) ∷ m) = if j == k then some b else lookup k m

unfoldable pub insert : ℕ → Bucket → Buckets → Buckets
insert k b [] = (k, b) ∷ []
insert k b ((j, c) ∷ m) = if j == k then (k, b) ∷ m else (j, c) ∷ insert k b m

-- `delete` on each bucket whose window is over.
unfoldable pub drop_expired : Time → Buckets → Buckets
drop_expired now [] = []
drop_expired now ((j, b) ∷ m) =
    let rest = drop_expired now m in if ltb now b.until then (j, b) ∷ rest else rest

-- No digest stands twice.
abbrev pub IsFresh : ℕ → Buckets → Type 0
IsFresh k m = lookup k m ≡ none

abbrev pub IsMap : Buckets → Type 0
IsMap [] = Unit {0}
IsMap ((j, b) ∷ m) = IsFresh j m × IsMap m

pub lookup-insert :
    (k j : ℕ) (b : Bucket) (m : Buckets)
    → lookup j (insert k b m) ≡ (if k == j then some b else lookup j m)
unfolding lookup insert
lookup-insert k j b [] = refl
lookup-insert k j b ((i, c) ∷ m) = ground (arith, lookup-insert k j b m)

pub insert-IsMap : (k : ℕ) (b : Bucket) (m : Buckets) → IsMap m → IsMap (insert k b m)
unfolding lookup insert
insert-IsMap k b [] v = (refl, tt)
insert-IsMap k b ((j, c) ∷ m) v = ground (arith, insert-IsMap k b m v.1, lookup-insert k j b m)

pub length-insert :
    (k : ℕ) (b : Bucket) (m : Buckets)
    → (lookup k m ≡ none → length (insert k b m) ≡ suc (length m))
      × (lookup k m ≢ none → length (insert k b m) ≡ length m)
unfolding lookup insert
length-insert k b [] = ground arith
length-insert k b ((j, c) ∷ m) = grind (arith, length-insert k b m)

drop_expired-IsFresh :
    (now : Time) (k : ℕ) (m : Buckets) → IsFresh k m → IsFresh k (drop_expired now m)
unfolding lookup drop_expired
drop_expired-IsFresh now k [] h = refl
drop_expired-IsFresh now k ((j, b) ∷ m) h = ground (arith, drop_expired-IsFresh now k m)

pub drop_expired-IsMap : (now : Time) (m : Buckets) → IsMap m → IsMap (drop_expired now m)
unfolding drop_expired
drop_expired-IsMap now [] v = tt
drop_expired-IsMap now ((j, b) ∷ m) v =
    ground (arith, drop_expired-IsMap now m v.1, drop_expired-IsFresh now j m v.0)

-- The cleanup drops the bucket of a key exactly when its window is over.
unfoldable pub live : Time → Option Bucket → Option Bucket
live now none = none
live now (some b) = if ltb now b.until then some b else none

pub lookup-drop_expired :
    (now : Time) (k : ℕ) (m : Buckets)
    → IsMap m
    → lookup k (drop_expired now m) ≡ live now (lookup k m)
unfolding lookup drop_expired live
lookup-drop_expired now k [] v = refl
lookup-drop_expired now k ((j, b) ∷ m) v =
    ground (arith, lookup-drop_expired now k m v.1, drop_expired-IsFresh now k m)

pub length-drop_expired-le : (now : Time) (m : Buckets) → length (drop_expired now m) ≤ length m
unfolding drop_expired
length-drop_expired-le now [] = omega arith
length-drop_expired-le now ((j, b) ∷ m) = ground (arith, length-drop_expired-le now m)

-- Where the bucket of some key is dropped, the table shrinks.
pub length-drop_expired-lt :
    (now : Time) (k : ℕ) (m : Buckets) (b : Bucket)
    → lookup k m ≡ some b
    → b.until ≤ now
    → length (drop_expired now m) < length m
unfolding lookup drop_expired
length-drop_expired-lt now k [] b e h = cc
length-drop_expired-lt now k ((j, c) ∷ m) b e h =
    grind (arith, length-drop_expired-le now m, length-drop_expired-lt now k m b)
