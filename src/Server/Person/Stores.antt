-- ===== src/Server/Person/Stores.antt =====
-- What the handlers of internal/server/person.go ask the database to store.
use our_ne_zt_core.Common.{String, Option, ◌≡◌, refl, ap, inl, inr, Bool-cases, ◌⊎◌}
use our_ne_zt_core.Common.Text.{is_empty}
use our_ne_zt_core.Domain.{PersonProfile, EntityId}
use our_ne_zt_core.Errors.{Error, Result, ok, err}
use our_ne_zt_core.Action.{proceed, proceed_congr}
use our_ne_zt_core.Server.Errors.{respond}
use our_ne_zt_core.Server.Messages.{PersonMessage}
use our_ne_zt_core.Server.Mapping.{Dates, person_from_proto, person_to_proto}
use our_ne_zt_core.Server.Access.{Authenticator, optional_authenticated_actor_id}
use our_ne_zt_core.Server.Repositories.{People}
use our_ne_zt_core.Server.Person.{
  create_person_profile, update_person_profile, validate_and_normalize_person_profile,
}
use our_ne_zt_core.Server.Person.Accepted.{IsAccepted, validate-IsAccepted}

Result-cases {ℓ} :
    {A : Type ℓ} (r : Result A) → ((e : Error) × (r ≡ err e)) ⊎ ((a : A) × (r ≡ ok a))
Result-cases (ok a) = inr (a, refl)
Result-cases (err e) = inl (e, refl)

module _ {S : Type 0} (auth : Option (Authenticator S)) (dates : Dates)
    (to_lower : String → String) where
  -- Two databases that store accepted profiles alike answer every request to create a profile alike,
  -- and are left in the same state.
  pub create_person_profile_congr :
      (r r' : People S)
      → ((p : PersonProfile) (actor : EntityId) (s : S)
          → IsAccepted to_lower p
          → r.create_person_profile p actor s ≡ r'.create_person_profile p actor s)
      → (req : Option PersonMessage) (s : S)
      → create_person_profile r auth dates to_lower req s
        ≡ create_person_profile r' auth dates to_lower req s
  unfolding create_person_profile
  create_person_profile_congr r r' h req s = elim (Result-cases (person_from_proto dates req)) [
    | inl (e, bad) ↦ simp bad refl
    | inr (p, read) ↦ elim (Result-cases (validate_and_normalize_person_profile to_lower p)) [
      | inl (e, bad) ↦ simp (read, bad) refl
      | inr (q, valid) ↦
          simp (read, valid)
            (ap (λ (x : S × Result PersonMessage). (x.0, respond x.1))
              (proceed_congr _ _
                (λ actor t.
                  ap (proceed λ created t. (t, ok (person_to_proto dates created)))
                    (h q actor t (validate-IsAccepted to_lower p q valid)))
                (optional_authenticated_actor_id auth s)))
    ]
  ]

  -- Two databases that update accepted profiles alike answer every request to update a profile
  -- alike, and are left in the same state.
  pub update_person_profile_congr :
      (r r' : People S)
      → ((p : PersonProfile) (actor : EntityId) (s : S)
          → IsAccepted to_lower p
          → r.update_person_profile p actor s ≡ r'.update_person_profile p actor s)
      → (req : Option PersonMessage) (s : S)
      → update_person_profile r auth dates to_lower req s
        ≡ update_person_profile r' auth dates to_lower req s
  unfolding update_person_profile
  update_person_profile_congr r r' h req s = elim (Result-cases (person_from_proto dates req)) [
    | inl (e, bad) ↦ simp bad refl
    | inr (p, read) ↦ elim (Bool-cases (is_empty p.id)) [
      | inl nameless ↦ simp (read, nameless) refl
      | inr named ↦ elim (Result-cases (validate_and_normalize_person_profile to_lower p)) [
        | inl (e, bad) ↦ simp (read, named, bad) refl
        | inr (q, valid) ↦
            simp (read, named, valid)
              (ap (λ (x : S × Result PersonMessage). (x.0, respond x.1))
                (proceed_congr _ _
                  (λ actor t.
                    ap (proceed λ updated t. (t, ok (person_to_proto dates updated)))
                      (h q actor t (validate-IsAccepted to_lower p q valid)))
                  (optional_authenticated_actor_id auth s)))
      ]
    ]
  ]
