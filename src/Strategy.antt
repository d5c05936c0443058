-- ===== src/Strategy.antt =====
-- src/services/auth.strategy.ts: which verified payloads a request is let in with.
pub mod Sessions
pub mod Laws
use edtech_lms_api.Prelude.{
  String, Bool, true, false, Option, none, some, ◌==◌, ◌||◌, not, nat_eq, is_some, if◌then◌else◌,
}
use edtech_lms_api.Js.{Value, num, str, get}
use edtech_lms_api.Errors.{Result, ok, err, unauthorized, plain}
use edtech_lms_api.Claims.{has_organisation_claims, has_school_user_id, is_mixed_shape}
use edtech_lms_api.Store.{Collation, Db, TokenType, find_token}
use edtech_lms_api.Session.{validate_staff_access_token}

-- `STAFF_SCHOOL_ROLES.includes(role)`: SUPERADMIN, ADMIN or TEACHER
abbrev pub is_staff_school_role : Value → Bool
is_staff_school_role (num n) = nat_eq n 1 || (nat_eq n 2 || nat_eq n 3)
is_staff_school_role _ = false

module _ (c : Collation) where
  -- `tokenExists(payload.jti, type)`; a query for no text is an error of the database layer.
  abbrev pub token_exists : Value → TokenType → Db → Result Bool
  token_exists (str jti) type db = ok (is_some (find_token c jti type db))
  token_exists _ type db = err (plain "WHERE parameter \"token\" has invalid value")

  unfoldable pub validate_token : Value → TokenType → Db → Result Value
  validate_token payload type db = elim (token_exists (get "jti" payload) type db) [
    | ok b ↦ if b then ok payload else err unauthorized
    | err e ↦ err e
  ]

  abbrev pub staff_school_only : Result Value → Result Value
  staff_school_only (ok user) =
      if not (is_staff_school_role (get "schooluserrole" user)) then err unauthorized else ok user
  staff_school_only (err e) = err e

  -- `JwtAccessStrategy.validate`
  unfoldable pub validate_access : Value → Db → Result Value
  unfolding validate_token
  validate_access payload db =
      if is_mixed_shape payload
      then err unauthorized
      else if has_school_user_id payload
      then staff_school_only (validate_token payload TokenType.access db)
      else if not (has_organisation_claims payload)
      then err unauthorized
      else if not (validate_staff_access_token c payload db)
      then err unauthorized
      else ok payload

  -- `JwtRefreshStrategy.validate`
  unfoldable pub validate_refresh : Value → Db → Result Value
  unfolding validate_token
  validate_refresh payload db = validate_token payload TokenType.refresh db
