-- ===== src/Action.antt =====
-- Calls that read and change a state of type `S`, the database or what stands for it, and can fail.
use our_ne_zt_core.Common.{◌≡◌, refl}
use our_ne_zt_core.Errors.{Error, Result, ok, err}

abbrev pub Action {ℓ κ} : Type ℓ → Type κ → Type (ℓ ⊔ κ)
Action S A = S → S × Result A

module _ {ℓ} {S : Type ℓ} where
  -- Goes on with the result of a call, if there is one.
  abbrev pub proceed {κ μ} :
      {A : Type κ} {B : Type μ} → (A → Action S B) → S × Result A → S × Result B
  proceed f (s, ok a) = f a s
  proceed f (s, err e) = (s, err e)

  infixl 5 ◌>>=◌ ◌>>◌
  abbrev pub ◌>>=◌ {κ μ} : {A : Type κ} {B : Type μ} → Action S A → (A → Action S B) → Action S B
  m >>= f = λ s. proceed f (m s)

  abbrev pub ◌>>◌ {κ μ} : {A : Type κ} {B : Type μ} → Action S A → Action S B → Action S B
  m >> k = m >>= λ _. k

  abbrev pub give {κ} : {A : Type κ} → A → Action S A
  give a = λ s. (s, ok a)

  abbrev pub throw {κ} : {A : Type κ} → Error → Action S A
  throw e = λ s. (s, err e)

  abbrev pub lift {κ} : {A : Type κ} → Result A → Action S A
  lift r = λ s. (s, r)

  -- Going on with two functions that agree.
  pub proceed_congr {κ μ} :
      {A : Type κ} {B : Type μ} (f g : A → Action S B)
      → ((a : A) (s : S) → f a s ≡ g a s)
      → (x : S × Result A) → proceed f x ≡ proceed g x
  proceed_congr f g h (s, ok a) = h a s
  proceed_congr f g h (s, err e) = refl

  -- What a chain of calls that succeeds went through.
  pub proceed-ok {κ μ} :
      {A : Type κ} {B : Type μ} (f : A → Action S B) (x : S × Result A) {t : S} {b : B}
      → proceed f x ≡ (t, ok b)
      → (s : S) × (a : A) × (x ≡ (s, ok a)) × (f a s ≡ (t, ok b))
  proceed-ok f (s, ok a) h = (s, a, refl, h)
  proceed-ok f (s, err e) h = cc
