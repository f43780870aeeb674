-- ===== src/Postgres/Sql/Unique.antt =====
-- Columns of a table whose values are unique, and what updates do to them and to the rows found.
use Prim.Native.String.{String}
use text.Mathlib.Text.{◌==◌}
use text.Mathlib.TextEquality.{eq_iff}
use our_ne_zt_core.Common.{
  Bool, true, false, List, [], ◌∷◌, ◌++◌, ◌≡◌, refl, arith, ap, ◌∙◌, Bool-cases, inl, inr, not,
  ◌&&◌, if◌then◌else◌,
}
use our_ne_zt_core.Postgres.Sql.{any_row, update_rows}

module _ {ℓ} {A : Type ℓ} where
  abbrev pub has_value : (A → String) → String → A → Bool
  has_value column s a = column a == s

  pub any_row-append :
      (p : A → Bool) (rows : List A) (a : A)
      → any_row p rows ≡ false
      → p a ≡ false
      → any_row p (rows ++ a ∷ []) ≡ false
  unfolding any_row
  any_row-append p [] a h k = rw k refl
  any_row-append p (b ∷ rows) a h k = ground (arith, any_row-append p rows a)

  pub any_row-update_rows :
      (p q : A → Bool) (f : A → A)
      → ((a : A) → q a ≡ true → p (f a) ≡ p a)
      → (rows : List A) → any_row p (update_rows q f rows) ≡ any_row p rows
  unfolding any_row update_rows
  any_row-update_rows p q f same [] = refl
  any_row-update_rows p q f same (a ∷ rows) =
      ground (arith, same a, any_row-update_rows p q f same rows)

  -- A test that updated rows do not pass holds of no row if it held of none.
  pub any_row-update_rows_none :
      (p q : A → Bool) (f : A → A)
      → ((a : A) → p (f a) ≡ false)
      → (rows : List A) → any_row p rows ≡ false
      → any_row p (update_rows q f rows) ≡ false
  unfolding any_row update_rows
  any_row-update_rows_none p q f off [] h = refl
  any_row-update_rows_none p q f off (a ∷ rows) h =
      ground (arith, off a, any_row-update_rows_none p q f off rows)

  -- Two tests, one of which implies the other.
  pub any_row_mono :
      (p q : A → Bool)
      → ((a : A) → p a ≡ true → q a ≡ true)
      → (rows : List A) → any_row q rows ≡ false
      → any_row p rows ≡ false
  unfolding any_row
  any_row_mono p q le [] h = refl
  any_row_mono p q le (a ∷ rows) h = ground (arith, le a, any_row_mono p q le rows)

  -- No two rows have the same value in a column.
  abbrev pub IsUnique : (A → String) → List A → Type 0
  IsUnique column [] = Unit
  IsUnique column (a ∷ rows) =
      (any_row (has_value column (column a)) rows ≡ false) × IsUnique column rows

  pub IsUnique-append :
      (column : A → String) (rows : List A) (a : A)
      → IsUnique column rows
      → any_row (has_value column (column a)) rows ≡ false
      → IsUnique column (rows ++ a ∷ [])
  unfolding any_row
  IsUnique-append column [] a u h = (refl, tt)
  IsUnique-append column (b ∷ rows) a u h = ground (
    arith,
    any_row-append (has_value column (column b)) rows a,
    IsUnique-append column rows a u.1,
    eq_iff (column a) (column b),
    eq_iff (column b) (column a),
  )

  kept :
      (column : A → String) (f : A → A)
      → ((a : A) → column (f a) ≡ column a)
      → (b : Bool) (a : A) → column (if b then f a else a) ≡ column a
  kept column f same true a = same a
  kept column f same false a = refl

  -- An update that keeps the column.
  pub IsUnique-update_rows :
      (column : A → String) (q : A → Bool) (f : A → A)
      → ((a : A) → column (f a) ≡ column a)
      → (rows : List A) → IsUnique column rows
      → IsUnique column (update_rows q f rows)
  unfolding update_rows
  IsUnique-update_rows column q f same [] u = tt
  IsUnique-update_rows column q f same (a ∷ rows) u =
      let here = column a in
      let updated =
        any_row-update_rows (has_value column here) q f (λ b _. ap (λ s. s == here) (same b))
          rows in
      (
        rw (kept column f same (q a) a) (updated ∙ u.0),
        IsUnique-update_rows column q f same rows u.1,
      )

  pub update_rows_none :
      (q : A → Bool) (f : A → A) (rows : List A)
      → any_row q rows ≡ false
      → update_rows q f rows ≡ rows
  unfolding any_row update_rows
  update_rows_none q f [] h = refl
  update_rows_none q f (a ∷ rows) h = ground (arith, update_rows_none q f rows)

  pub any_row-update_rows_gone :
      (p : A → Bool) (f : A → A)
      → ((a : A) → p (f a) ≡ false)
      → (rows : List A) → any_row p (update_rows p f rows) ≡ false
  unfolding any_row update_rows
  any_row-update_rows_gone p f off [] = refl
  any_row-update_rows_gone p f off (a ∷ rows) =
      ground (arith, off a, any_row-update_rows_gone p f off rows)

  -- A row with a value in one column, and another key than a given one.
  abbrev pub is_other : (A → String) → String → (A → String) → String → A → Bool
  is_other key k column value a = not (key a == k) && (column a == value)

  any_row-is_other :
      (key column : A → String) (k value : String) (rows : List A)
      → any_row (has_value key k) rows ≡ false
      → any_row (is_other key k column value) rows ≡ false
      → any_row (has_value column value) rows ≡ false
  unfolding any_row
  any_row-is_other key column k value [] h o = refl
  any_row-is_other key column k value (a ∷ rows) h o =
      ground (arith, any_row-is_other key column k value rows)

  -- The two cases of the head of a table: it is the row that is set, or it is another row.
  set_here :
      (key column : A → String) (k value : String) (f : A → A) (a : A) (rows : List A)
      → (key a == k) ≡ true
      → any_row (has_value key (key a)) rows ≡ false
      → any_row (is_other key k column value) (a ∷ rows) ≡ false
      → any_row (has_value column value) (update_rows (has_value key k) f rows) ≡ false
  unfolding any_row
  set_here key column k value f a rows e u o = ground (
    arith,
    eq_iff (key a) k,
    update_rows_none (has_value key k) f rows,
    any_row-is_other key column k value rows,
  )

  set_later :
      (key column : A → String) (k value : String) (f : A → A)
      → ((a : A) → column (f a) ≡ value)
      → (a : A) (rows : List A) → (key a == k) ≡ false
      → any_row (has_value column (column a)) rows ≡ false
      → any_row (is_other key k column value) (a ∷ rows) ≡ false
      → any_row (has_value column (column a)) (update_rows (has_value key k) f rows) ≡ false
  unfolding any_row
  set_later key column k value f sets a rows e u o =
      any_row-update_rows_none (has_value column (column a)) (has_value key k) f
        (λ b. rw (sets b) (ground (arith, eq_iff value (column a), eq_iff (column a) value))) rows u

  -- The row with one key gets a value that no other row has.
  pub IsUnique-set :
      (key column : A → String) (k value : String) (f : A → A)
      → ((a : A) → column (f a) ≡ value)
      → (rows : List A) → IsUnique key rows
      → IsUnique column rows
      → any_row (is_other key k column value) rows ≡ false
      → IsUnique column (update_rows (has_value key k) f rows)
  unfolding update_rows any_row
  IsUnique-set key column k value f sets [] uk uc o = tt
  IsUnique-set key column k value f sets (a ∷ rows) uk uc o =
      let rest = IsUnique-set key column k value f sets rows uk.1 uc.1 in
      elim (Bool-cases (key a == k)) [
        | inl e ↦
            (rw (e, sets a) (set_here key column k value f a rows e uk.0 o), rest (ground arith))
        | inr e ↦ (rw e (set_later key column k value f sets a rows e uc.0 o), rest (ground arith))
      ]
