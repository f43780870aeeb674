-- ===== src/Postgres/Sql/Select.antt =====
-- What is found and kept of a table's rows.
use our_ne_zt_core.Common.{
  Bool, true, false, ◌&&◌, List, [], ◌∷◌, ◌++◌, ◌≡◌, refl, arith, some, keep, Bool-cases, inl, inr,
}
use our_ne_zt_core.Postgres.Sql.{any_row, find_row, order_by, put_in_order, update_rows}

module _ {ℓ} {A : Type ℓ} where
  pub find_row-holds :
      (p : A → Bool) (rows : List A) {a : A} → find_row p rows ≡ some a → p a ≡ true
  unfolding find_row
  find_row-holds p [] h = cc
  find_row-holds p (b ∷ rows) {a = a} h = ground (arith, find_row-holds p rows {a = a})

  pub any_row-put_in_order :
      (p : A → Bool) (before : A → A → Bool) (a : A) (rows : List A)
      → p a ≡ false
      → any_row p rows ≡ false
      → any_row p (put_in_order before a rows) ≡ false
  unfolding any_row put_in_order
  any_row-put_in_order p before a [] h k = ground arith
  any_row-put_in_order p before a (b ∷ rows) h k =
      ground (arith, any_row-put_in_order p before a rows)

  pub any_row-order_by :
      (p : A → Bool) (before : A → A → Bool) (rows : List A)
      → any_row p rows ≡ false
      → any_row p (order_by before rows) ≡ false
  unfolding any_row order_by
  any_row-order_by p before [] h = refl
  any_row-order_by p before (a ∷ rows) h = ground (
    arith,
    any_row-order_by p before rows,
    any_row-put_in_order p before a (order_by before rows),
  )

  -- No kept row passes a test that no row passes which is kept.
  pub any_row-keep :
      (p q : A → Bool) (rows : List A)
      → any_row (λ a. p a && q a) rows ≡ false
      → any_row p (keep q rows) ≡ false
  unfolding any_row
  any_row-keep p q [] h = refl
  any_row-keep p q (a ∷ rows) h = ground (arith, any_row-keep p q rows)

  pub keep_none : (q : A → Bool) (rows : List A) → any_row q rows ≡ false → keep q rows ≡ []
  unfolding any_row
  keep_none q [] h = refl
  keep_none q (a ∷ rows) h = ground (arith, keep_none q rows)

  pub keep_last :
      (q : A → Bool) (rows : List A) (a : A)
      → any_row q rows ≡ false
      → q a ≡ true
      → keep q (rows ++ a ∷ []) ≡ a ∷ []
  unfolding any_row
  keep_last q [] a h k = rw k refl
  keep_last q (b ∷ rows) a h k = ground (arith, keep_last q rows a)

  pub update_rows-last :
      (p : A → Bool) (f : A → A) (rows : List A) (a : A)
      → any_row p rows ≡ false
      → p a ≡ true
      → update_rows p f (rows ++ a ∷ []) ≡ rows ++ f a ∷ []
  unfolding any_row update_rows
  update_rows-last p f [] a h k = rw k refl
  update_rows-last p f (b ∷ rows) a h k = ground (arith, update_rows-last p f rows a)

  pub find_row-some :
      (p : A → Bool) (rows : List A) → any_row p rows ≡ true → (a : A) × (find_row p rows ≡ some a)
  unfolding any_row find_row
  find_row-some p [] h = cc
  find_row-some p (a ∷ rows) h = elim (Bool-cases (p a)) [
    | inl e ↦ (a, rw e refl)
    | inr e ↦
        let rest : any_row p rows ≡ true = ground (arith, h, e) in
        let (b, found) = find_row-some p rows rest in (b, simp (e, found) refl)
  ]

  pub put_in_order-alone : (before : A → A → Bool) (a : A) → order_by before (a ∷ []) ≡ a ∷ []
  unfolding order_by put_in_order
  put_in_order-alone before a = refl
