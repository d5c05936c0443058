-- ===== src/Session.antt =====
-- src/business/token.business.ts: the claims of a staff token, the per-request check of one, and
-- the rows of `tokens`.
pub mod Current
pub mod Mint
pub mod Rows
pub mod Minted
pub mod Payloads
use edtech_lms_api.Prelude.{
  String, Bool, true, false, Option, none, some, List, [], ◌∷◌, ◌==◌, ◌&&◌, ◌||◌, not, any,
  contains, is_some, if◌then◌else◌, or_else, nat_eq, find,
}
use edtech_lms_api.Enums.{superadmin_role}
use edtech_lms_api.Js.{Value, undefined, null, bool, num, str, arr, obj, get}
use edtech_lms_api.Errors.{Result, ok, err, plain}
use edtech_lms_api.Store.{Collation, Db, User, Organisation, Token, TokenType, same_type, find_user}

pub record OrganisationClaims : Type 0 where
  pub organisationid : Option String
  pub isplatform : Bool

-- `acting` is `none` where it is undefined or null.
unfoldable pub organisation_claims :
    Option String → List String → Option String → Result OrganisationClaims
organisation_claims own roleids acting =
    let isplatform : Bool = not (is_some own) && contains roleids superadmin_role in
    if is_some acting && not isplatform
    then err (plain "Only a platform user can act as an organisation.")
    else ok
        (record { organisationid = if isplatform then acting else own; isplatform = isplatform })

-- `value === true || value === 1 || value === "1"`
unfoldable pub yes_value : Value → Bool
yes_value (bool b) = b
yes_value (num n) = nat_eq n 1
yes_value (str s) = s == "1"
yes_value _ = false

pub record StaffSessionRow : Type 0 where
  pub isdisabled : Value
  pub userorganisationid : Option String
  pub claimedorganisationid : Option String
  pub claimedisdeleted : Value
  pub claimedstatus : Value
  pub issuperadmin : Value

-- `a === b` on texts that may be null
abbrev pub same_text : Option String → Option String → Bool
same_text none none = true
same_text (some a) (some b) = a == b
same_text _ _ = false

-- The claimed organisation is there, not deleted and not suspended.
claimed_is_usable : StaffSessionRow → Bool
claimed_is_usable row =
    is_some row.claimedorganisationid
    && (not (yes_value row.claimedisdeleted) && yes_value row.claimedstatus)

unfoldable pub is_staff_session_current : Option StaffSessionRow → OrganisationClaims → Bool
unfolding claimed_is_usable
is_staff_session_current none claims = false
is_staff_session_current (some row) claims =
    if yes_value row.isdisabled
    then false
    else if not claims.isplatform && not (is_some claims.organisationid)
    then false
    else if is_some claims.organisationid && not (claimed_is_usable row)
    then false
    else if not claims.isplatform
    then same_text row.userorganisationid claims.organisationid
    else not (is_some row.userorganisationid) && yes_value row.issuperadmin

-- A tinyint column in a raw row.
abbrev pub tinyint : Bool → Value
tinyint true = num 1
tinyint false = num 0

module _ (c : Collation) where
  open c use {matches}

  -- The organisation columns of the left join: NULL where no row joins.
  abbrev pub session_row : User → Option Organisation → StaffSessionRow
  session_row u none = record {
    isdisabled = tinyint u.isdisabled;
    userorganisationid = u.organisationid;
    claimedorganisationid = none;
    claimedisdeleted = null;
    claimedstatus = null;
    issuperadmin = tinyint (any (λ r. matches r superadmin_role) u.roleids);
  }
  session_row u (some o) = record {
    isdisabled = tinyint u.isdisabled;
    userorganisationid = u.organisationid;
    claimedorganisationid = some o.organisationid;
    claimedisdeleted = tinyint o.isdeleted;
    claimedstatus = tinyint o.organisationstatus;
    issuperadmin = tinyint (any (λ r. matches r superadmin_role) u.roleids);
  }

  -- The token row that the query starts from.
  abbrev pub is_session_token : String → String → Token → Bool
  is_session_token jti userid t =
      matches t.token jti && (same_type t.tokentype TokenType.access && matches t.lmsuserid userid)

  -- A NULL claim joins no organisation.
  abbrev pub claimed_organisation : Option String → List Organisation → Option Organisation
  claimed_organisation none os = none
  claimed_organisation (some id) os = find (λ o. matches o.organisationid id) os

  -- The user joined to the token, with the organisation that the token claims.
  unfoldable pub joined_row : String → Option String → Db → Option StaffSessionRow
  unfolding find_user
  joined_row userid claimed db = elim (find_user c userid db) [
    | none ↦ none
    | some u ↦ some (session_row u (claimed_organisation claimed db.organisations))
  ]

  -- STAFF_SESSION_SQL
  unfoldable pub staff_session_query : String → String → Option String → Db → Option StaffSessionRow
  unfolding joined_row
  staff_session_query jti userid claimed db = elim (find (is_session_token jti userid) db.tokens) [
    | none ↦ none
    | some t ↦ joined_row userid claimed db
  ]

  -- The query and the check, for claims of the right types.
  unfoldable pub session_is_current : String → String → OrganisationClaims → Db → Bool
  unfolding staff_session_query
  session_is_current jti userid claims db =
      is_staff_session_current (staff_session_query jti userid claims.organisationid db) claims

-- What `validateStaffAccessToken` reads of a payload, where every type is right.
pub record SessionClaims : Type 0 where
  pub jti : String
  pub lmsuserid : String
  pub claims : OrganisationClaims

abbrev claims_of : Value → Value → Value → Value → Option SessionClaims
claims_of (str jti) (str id) (str o) (bool p) =
    if id == ""
    then none
    else some (record {
      jti = jti;
      lmsuserid = id;
      claims = record { organisationid = some o; isplatform = p };
    })
claims_of (str jti) (str id) null (bool p) =
    if id == ""
    then none
    else some (record {
      jti = jti;
      lmsuserid = id;
      claims = record { organisationid = none; isplatform = p };
    })
claims_of _ _ _ _ = none

unfoldable pub session_claims : Value → Option SessionClaims
session_claims payload =
    claims_of (get "jti" payload) (get "lmsuserid" payload) (get "organisationid" payload)
      (get "isplatform" payload)

unfoldable pub validate_staff_access_token : Collation → Value → Db → Bool
unfolding session_claims session_is_current
validate_staff_access_token c payload db = elim (session_claims payload) [
  | none ↦ false
  | some k ↦ session_is_current c k.jti k.lmsuserid k.claims db
]
