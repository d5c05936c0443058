-- ===== src/Strategy/Laws.antt =====
-- Which payloads the access strategy accepts.
use edtech_lms_api.Prelude.{◌≡◌, ◌↔◌, ◌⊎◌, inl, inr, true, false, arith}
use edtech_lms_api.Js.{Value, get}
use edtech_lms_api.Errors.{ok, Result-cases}
use edtech_lms_api.Claims.{has_organisation_claims, has_school_user_id, is_mixed_shape}
use edtech_lms_api.Store.{Collation, TokenType, Db}
use edtech_lms_api.Session.{validate_staff_access_token}
use edtech_lms_api.Strategy.{is_staff_school_role, token_exists, validate_token, validate_access}
use edtech_lms_api.Strategy.Sessions.{
  IsSchoolSession, IsStaffSession, IsSchoolSession-iff, IsStaffSession-iff,
}

module _ (c : Collation) where
  validate_token_iff :
      (payload v : Value) (db : Db)
      → (validate_token c payload TokenType.access db ≡ ok v)
        ↔ ((v ≡ payload) × (token_exists c (get "jti" payload) TokenType.access db ≡ ok true))
  unfolding validate_token
  validate_token_iff payload v db =
      elim (Result-cases (token_exists c (get "jti" payload) TokenType.access db)) [
        | inl (e, refused) ↦ ground arith
        | inr (b, passed) ↦ ground arith
      ]

  -- The ladder of `validate`, its token lookup spelled out.
  validate_steps :
      (payload v : Value) (db : Db)
      → (validate_access c payload db ≡ ok v) ↔ (
          (v ≡ payload)
          × (is_mixed_shape payload ≡ false)
          × (((has_school_user_id payload ≡ true)
                × (token_exists c (get "jti" payload) TokenType.access db ≡ ok true)
                × (is_staff_school_role (get "schooluserrole" payload) ≡ true))
              ⊎ ((has_school_user_id payload ≡ false)
                  × (has_organisation_claims payload ≡ true)
                  × (validate_staff_access_token c payload db ≡ true))))
  unfolding validate_access
  validate_steps payload v db = ground (arith, validate_token_iff payload v db)

  -- The strategy lets a payload in, and hands the same payload on, exactly when it is one of two.
  -- Either it has a school user's id, none of the three claims of a staff token, the id of a stored
  -- access token and a staff role; or it has no school user's id and says the claims of a staff
  -- session that the tables make good, with a uuid where it claims an organisation.
  pub validate_access_iff :
      (payload v : Value) (db : Db)
      → (validate_access c payload db ≡ ok v)
        ↔ ((v ≡ payload) × (IsSchoolSession c payload db ⊎ IsStaffSession c payload db))
  validate_access_iff payload v db = (
    (λ h.
        let (same, pure, kind) = (validate_steps payload v db).0 h in
        (
          same,
          elim kind [
            | inl (school, there, role) ↦
                inl ((IsSchoolSession-iff c payload db).1 (pure, school, there, role))
            | inr (staff, claimed, good) ↦
                inr ((IsStaffSession-iff c payload db).1 (pure, staff, claimed, good))
          ],
        )),
    (λ (same, kind). elim kind [
      | inl s ↦
          let (pure, school, there, role) = (IsSchoolSession-iff c payload db).0 s in
          (validate_steps payload v db).1 (same, pure, inl (school, there, role))
      | inr s ↦
          let (pure, staff, claimed, good) = (IsStaffSession-iff c payload db).0 s in
          (validate_steps payload v db).1 (same, pure, inr (staff, claimed, good))
    ]),
  )
