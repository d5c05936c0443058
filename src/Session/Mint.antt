-- ===== src/Session/Mint.antt =====
-- src/business/token.business.ts: how a staff token is minted, and the rows written for it.
use edtech_lms_api.Prelude.{
  ℕ, String, Bool, true, false, Option, none, some, List, ◌==◌, ◌&&◌, not, any, is_some,
  if◌then◌else◌,
}
use edtech_lms_api.Js.{
  Value, Fields, bool, str, arr, obj, end, field, put, spread, array_of, nullable,
}
use edtech_lms_api.Errors.{Result, ok, coded, login_failed, throw_if, ◌>>=◌, ◌>>◌}
use edtech_lms_api.Env.{Env}
use edtech_lms_api.Permissions.{convert_roles_perms}
use edtech_lms_api.Store.{
  Collation, Db, User, RoleRow, role_ids, TokenType, type_value, destroy_tokens_of_type,
  create_token,
}
use edtech_lms_api.Session.{OrganisationClaims, organisation_claims}

unfoldable pub token_payload : Env → String → ℕ → Fields → String → String → Value
unfolding put spread
token_payload env userid exptime payload claims jti = obj (
    put "claims" (str claims) (
      spread
        (field "sub" (str userid) (
          field "iat" env.issued_at
            (field "jti" (str jti) (field "exp" (env.expires_at exptime) end))))
        payload))

unfoldable pub generate_token : Env → String → ℕ → Fields → String → String → String → String
unfolding token_payload
generate_token env userid exptime payload secret claims jti =
    env.sign (token_payload env userid exptime payload claims jti) secret

abbrev pub superadmin_username : String
superadmin_username = "superadmin@superadmin.com"

-- `if (user.organisationid)`
abbrev pub truthy : Option String → Bool
truthy none = false
truthy (some s) = not (s == "")

pub record LoginTokens : Type 0 where
  pub access_token : String
  pub refresh_token : String

-- The claims about the user that an access token carries.
unfoldable pub user_payload : Env → User → List RoleRow → OrganisationClaims → Db → Fields
user_payload env user held claims db = field "lmsusername" (str user.lmsusername) (
    field "lmsuserrole" (str user.lmsuserrole) (
      field "lmsuserroles" (arr (array_of (role_ids held))) (
        field "lmsuserid" (str user.lmsuserid) (
          field "firstname" user.firstname (
            field "lastname" user.lastname (
              field "permissions"
                (arr (
                  array_of (
                    convert_roles_perms held
                      (env.is_local && user.lmsusername == superadmin_username) db)))
                (field "countries" user.countries (
                  field "schools" user.schools (
                    field "organisationid" (nullable claims.organisationid)
                      (field "isplatform" (bool claims.isplatform) end))))))))))

-- The claim of the refresh token that records the organisation acted in.
abbrev pub acting_payload : OrganisationClaims → Fields
acting_payload claims = elim claims.organisationid [
  | none ↦ end
  | some o ↦ if claims.isplatform then field "actingorganisationid" (str o) end else end
]

-- The payload of the access token that the user is given.
unfoldable pub access_payload : Env → User → List RoleRow → OrganisationClaims → String → Db → Value
unfolding token_payload user_payload
access_payload env user held claims accessid db =
    token_payload env user.lmsuserid env.accessexpirationminutes
      (user_payload env user held claims db) (type_value TokenType.access) accessid

module _ (c : Collation) where
  open c use {matches}

  unfoldable pub save_token : String → String → TokenType → Db → Db
  unfolding destroy_tokens_of_type create_token
  save_token token lmsuserid type db =
      create_token c token lmsuserid type (destroy_tokens_of_type c lmsuserid type db)

  -- The misc token and the tables with its row.
  unfoldable pub generate_misc_token :
      Env → String → ℕ → TokenType → Fields → String → Db → String × Db
  unfolding save_token generate_token
  generate_misc_token env lmsuserid expiry type payload miscid db = (
    generate_token env lmsuserid expiry payload env.applicationsecret (type_value type) miscid,
    save_token miscid lmsuserid type db,
  )

  -- `organisations.count({ organisationid, isdeleted: false, organisationstatus: true }) > 0`
  unfoldable pub organisation_is_active : String → Db → Bool
  organisation_is_active id db =
      any (λ o. matches o.organisationid id && (not o.isdeleted && o.organisationstatus))
        db.organisations

  -- The organisation that the user belongs to, if any, is usable.
  abbrev pub own_organisation_usable : Option String → Db → Bool
  own_organisation_usable none db = true
  own_organisation_usable (some id) db = if id == "" then true else organisation_is_active id db

  -- The refusals, all before a token is touched.
  unfoldable pub mint_claims : User → List RoleRow → Option String → Db → Result OrganisationClaims
  mint_claims user held acting db = do
    claims ← organisation_claims user.organisationid (role_ids held) acting
    throw_if (not claims.isplatform && not (is_some claims.organisationid)) (coded login_failed)
    throw_if (not (own_organisation_usable user.organisationid db)) (coded login_failed)
    ok claims

  -- The tables once both tokens are written.
  unfoldable pub mint_rows : User → String → String → Db → Db
  unfolding save_token
  mint_rows user accessid refreshid db = save_token refreshid user.lmsuserid TokenType.refresh (
      save_token accessid user.lmsuserid TokenType.access (
        destroy_tokens_of_type c user.lmsuserid TokenType.access
          (destroy_tokens_of_type c user.lmsuserid TokenType.refresh db)))

  -- `generateAuthToken(user, { actingorganisationid })`; `accessid` and `refreshid` are the two
  -- fresh uuids.
  unfoldable pub generate_auth_token :
      Env → User → List RoleRow → Option String → String → String → Db → Result (LoginTokens × Db)
  unfolding mint_claims mint_rows access_payload generate_token
  generate_auth_token env user held acting accessid refreshid db = do
    claims ← mint_claims user held acting db
    ok (
      record {
        access_token =
            env.sign (access_payload env user held claims accessid db) env.applicationsecret;
        refresh_token =
            generate_token env user.lmsuserid env.refreshexpirationminutes (acting_payload claims)
              env.applicationsecret (type_value TokenType.refresh) refreshid;
      },
      mint_rows user accessid refreshid db,
    )
