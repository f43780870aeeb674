-- ===== src/Common/Trim.antt =====
-- Trimming twice is trimming once, for `strings.TrimSpace`.
use Prim.Native.Char.{Char, code}
use Prim.Native.String.{String}
use mathlib.Core.Path.{◌≡◌, refl}
use mathlib.Core.Logic.{inl, inr}
use mathlib.Core.Bool.{false, ◌&&◌}
use our_ne_zt_core.Common.Tests.{Bool-cases}
use our_ne_zt_core.Common.Text.{is_empty, is_space, trim_left, trim_right, trim_space}

trim_right_idem : (s : String) → trim_right (trim_right s) ≡ trim_right s
unfolding trim_right
trim_right_idem String.[] = refl
trim_right_idem (String.◌∷◌ c s) =
    elim (Bool-cases (is_empty (trim_right s) && is_space (code c))) [
      | inl e ↦ rw e refl
      | inr e ↦ rw (e, trim_right_idem s, e) refl
    ]

trim_left-trimmed : (s : String) → trim_left (trim_left s) ≡ trim_left s
unfolding trim_left
trim_left-trimmed String.[] = refl
trim_left-trimmed (String.◌∷◌ c s) = elim (Bool-cases (is_space (code c))) [
  | inl e ↦ rw e (trim_left-trimmed s)
  | inr e ↦ rw (e, e) refl
]

trim_left-keeps :
    (c : Char) (s : String)
    → is_space (code c) ≡ false
    → trim_left (trim_right (String.◌∷◌ c s)) ≡ trim_right (String.◌∷◌ c s)
unfolding trim_right trim_left
trim_left-keeps c s e = elim (Bool-cases (is_empty (trim_right s))) [
  | inl f ↦ rw (f, e, e) refl
  | inr f ↦ rw (f, e) refl
]

trim_left-trim_right :
    (s : String) → trim_left (trim_right (trim_left s)) ≡ trim_right (trim_left s)
unfolding trim_left trim_right
trim_left-trim_right String.[] = refl
trim_left-trim_right (String.◌∷◌ c s) = elim (Bool-cases (is_space (code c))) [
  | inl e ↦ rw e (trim_left-trim_right s)
  | inr e ↦ rw e (trim_left-keeps c s e)
]

pub trim_space_idem : (s : String) → trim_space (trim_space s) ≡ trim_space s
unfolding trim_space
trim_space_idem s = rw (trim_left-trim_right s, trim_right_idem (trim_left s)) refl
