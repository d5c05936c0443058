-- ===== src/Auth.antt =====
-- src/business/auth.business.ts: signing in, refreshing, switching organisation and signing out of
-- a staff account. Mails and log lines are not modelled; the token row that a mail carries is.
pub mod Laws
pub mod Refresh
use edtech_lms_api.Prelude.{
  String, Bool, true, false, Option, none, some, List, ◌==◌, ◌&&◌, not, filter, find, contains,
  if◌then◌else◌,
}
use edtech_lms_api.Js.{Value, str, get, end}
use edtech_lms_api.Errors.{
  Result, ok, err, Failure, plain, saying, coded, login_failed, sign_in_required, not_allowed,
  not_found,
}
use edtech_lms_api.Env.{Env}
use edtech_lms_api.Claims.{is_uuid_text}
use edtech_lms_api.Store.{
  role_ids, Collation, Db, User, RoleRow, Token, TokenType, Action, find_user, find_token,
  destroy_tokens_of_type,
}
use edtech_lms_api.Session.{OrganisationClaims, organisation_claims}
use edtech_lms_api.Session.Mint.{
  LoginTokens, generate_misc_token, generate_auth_token, organisation_is_active,
}

abbrev pub login_failure : Failure
login_failure = saying login_failed "The username or password is incorrect."

-- A user read with its roles (`rolesInclude`).
pub record LoadedUser : Type 0 where
  pub user : User
  pub held : List RoleRow

-- `isplatform` of the claims that name no organisation to act as
unfoldable pub is_platform_account : User → List RoleRow → Bool
is_platform_account user held =
    elim (organisation_claims user.organisationid (role_ids held) none) [
      | ok k ↦ k.isplatform
      | err e ↦ false
    ]

-- What a refresh keeps acting as, and where it stopped.
pub data EndReason : Type 0 where
  organisation_unavailable no_longer_platform : EndReason

pub record Acting : Type 0 where
  pub organisationid : Option String
  pub endedfrom : Option String
  pub reason : Option EndReason

abbrev pub not_acting : Acting
not_acting = record { organisationid = none; endedfrom = none; reason = none }

-- The fresh uuids of one request.
pub record Uuids : Type 0 where
  pub misc : String
  pub access : String
  pub refresh : String

-- The role rows linked to the user.
abbrev pub held_roles : User → Db → List RoleRow
held_roles user db = filter (λ r. contains user.roleids r.roleid) db.roles

abbrev pub load : Option User → Db → Option LoadedUser
load none db = none
load (some u) db = some (record { user = u; held = held_roles u db })

-- The organisation that a refresh token says the session acts as.
abbrev pub claimed_text : Value → Option String
claimed_text (str s) = if is_uuid_text s then some s else none
claimed_text _ = none

abbrev pub claimed_acting : Option Value → Option String
claimed_acting none = none
claimed_acting (some payload) = claimed_text (get "actingorganisationid" payload)

-- A failed call in a state: nothing was written.
abbrev pub in_state : {A : Type 0} → Result (A × Db) → Action A
in_state (ok (a, db')) db = (ok a, db')
in_state (err e) db = (err e, db)

module _ (c : Collation) (env : Env) where
  open c use {matches}

  unfoldable pub get_user_by_id : String → Db → Option LoadedUser
  get_user_by_id id db = load (find_user c id db) db

  unfoldable pub get_user_by_email : String → Db → Option LoadedUser
  get_user_by_email email db =
      load (find (λ u. matches u.lmsusername email && not u.isdisabled) db.users) db

  -- An account that is not verified is sent a mail with a new verification token, and refused.
  unfoldable pub verify_user : User → String → Action (Unit {0})
  unfolding generate_misc_token
  verify_user user miscid db =
      if not user.isverified
      then (
        err login_failure,
        (generate_misc_token c env user.lmsuserid env.changepasswordexpirationminutes
            TokenType.verifyemail end miscid db).1,
      )
      else if user.isdisabled
      then (err login_failure, db)
      else (ok tt, db)

  unfoldable pub login : String → String → String → Action LoadedUser
  unfolding get_user_by_email verify_user
  login email password miscid db = elim (get_user_by_email email db) [
    | none ↦ (err login_failure, db)
    | some l ↦
        if not (env.verify_password password l.user.lmsuserpasswordhash)
        then (err login_failure, db)
        else let (r, db') = verify_user l.user miscid db in
          elim r [ ok _ ↦ (ok l, db') | err e ↦ (err e, db') ]
  ]

  -- Both kinds of token of the account go.
  unfoldable pub logout : String → Db → Db
  logout lmsuserid db =
      destroy_tokens_of_type c lmsuserid TokenType.refresh
        (destroy_tokens_of_type c lmsuserid TokenType.access db)

  -- The token row of the payload's id; a payload with no text there finds none.
  abbrev pub row_of_jti : Value → TokenType → Db → Option Token
  row_of_jti (str jti) type db = find_token c jti type db
  row_of_jti _ type db = none

  -- `verifyToken`: the signature, then the row. The row is what it answers.
  unfoldable pub verify_token : String → TokenType → Db → Option Token
  verify_token token type db = elim (env.verify token env.applicationsecret) [
    | none ↦ none
    | some decoded ↦ row_of_jti (get "jti" decoded) type db
  ]

  unfoldable pub still_acting_organisation : LoadedUser → String → Db → Acting
  still_acting_organisation l refresh_token db = elim (claimed_acting (env.decode refresh_token)) [
    | none ↦ not_acting
    | some claimed ↦
        if not (is_platform_account l.user l.held)
        then record {
          organisationid = none;
          endedfrom = some claimed;
          reason = some no_longer_platform;
        }
        else if organisation_is_active c claimed db
        then record { organisationid = some claimed; endedfrom = none; reason = none }
        else record {
          organisationid = none;
          endedfrom = some claimed;
          reason = some organisation_unavailable;
        }
  ]

  -- The body of `refreshAuth`, before its `catch`.
  unfoldable pub refresh_body : String → Uuids → Action LoginTokens
  unfolding verify_token get_user_by_id verify_user still_acting_organisation
  refresh_body refresh_token ids db = elim (verify_token refresh_token TokenType.refresh db) [
    | none ↦ (err (plain "Token payload missing or invalid"), db)
    | some row ↦ elim (get_user_by_id row.lmsuserid db) [
      | none ↦ (err (plain "Token payload missing or invalid"), db)
      | some l ↦
          let (r, db') = verify_user l.user ids.misc db in
          elim r [
            | err e ↦ (err e, db')
            | ok _ ↦
                in_state
                  (generate_auth_token c env l.user l.held
                    (still_acting_organisation l refresh_token db').organisationid ids.access
                    ids.refresh db')
                  db'
          ]
    ]
  ]

  -- Whatever is thrown becomes "sign in again".
  unfoldable pub refresh_auth : String → Uuids → Action LoginTokens
  refresh_auth refresh_token ids db =
      let (r, db') = refresh_body refresh_token ids db in
      elim r [ ok t ↦ (ok t, db') | err e ↦ (err (coded sign_in_required), db') ]

  -- No organisation to act as, or an active one.
  abbrev pub target_available : Option String → Db → Bool
  target_available none db = true
  target_available (some id) db = organisation_is_active c id db

  -- `switchOrganisation`, for the account of the caller's token.
  unfoldable pub switch_organisation : String → Option String → Uuids → Action LoginTokens
  unfolding get_user_by_id
  switch_organisation lmsuserid target ids db = elim (get_user_by_id lmsuserid db) [
    | none ↦ (err (coded sign_in_required), db)
    | some l ↦
        if l.user.isdisabled
        then (err (coded sign_in_required), db)
        else if not (is_platform_account l.user l.held)
        then (err (coded not_allowed), db)
        else if not (target_available target db)
        then (err (saying not_found "That organisation doesn't exist."), db)
        else in_state (generate_auth_token c env l.user l.held target ids.access ids.refresh db) db
  ]
