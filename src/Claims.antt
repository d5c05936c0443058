-- ===== src/Claims.antt =====
-- src/services/organisation-claims.ts and src/decorators/org.decorator.ts: the shapes of a token
-- payload, and the organisation context that a request is served under.
pub mod Laws
use edtech_lms_api.Prelude.{
  ℕ, String, Bool, true, false, Option, none, some, List, [], ◌∷◌, ◌==◌, ◌&&◌, ◌||◌, not, codes,
  leb, nat_eq, if◌then◌else◌,
}
use edtech_lms_api.Js.{
  Value, undefined, null, bool, str, arr, obj, Fields, values, strings, count_keys, get, is_object,
  is_present, is_undefined, is_boolean, is_true, is_null, as_string, non_empty,
}
use edtech_lms_api.Errors.{Result, ok, err, unauthorized}

-- `[0-9a-f]` under the flag `i`
unfoldable pub is_hex : ℕ → Bool
is_hex c = (leb b'0' c && leb c b'9') || ((leb b'a' c && leb c b'f') || (leb b'A' c && leb c b'F'))

-- One text against a pattern, position by position: `x` stands for a hexadecimal digit and any
-- other character for itself.
unfoldable pub fits_shape : List ℕ → List ℕ → Bool
unfolding is_hex
fits_shape [] [] = true
fits_shape [] (c ∷ cs) = false
fits_shape (p ∷ ps) [] = false
fits_shape (p ∷ ps) (c ∷ cs) = (if nat_eq p b'x' then is_hex c else nat_eq p c) && fits_shape ps cs

abbrev uuid_shape : String
uuid_shape = "xxxxxxxx-xxxx-xxxx-xxxx-xxxxxxxxxxxx"

unfoldable pub is_uuid_text : String → Bool
unfolding fits_shape
is_uuid_text s = fits_shape (codes uuid_shape) (codes s)

abbrev pub is_uuid_shaped : Value → Bool
is_uuid_shaped (str s) = is_uuid_text s
is_uuid_shaped _ = false

unfoldable pub has_organisation_claims : Value → Bool
has_organisation_claims payload =
    is_object payload
    && ((is_null (get "organisationid" payload) || is_uuid_shaped (get "organisationid" payload))
        && is_boolean (get "isplatform" payload))

unfoldable pub has_school_user_id : Value → Bool
has_school_user_id payload = is_object payload && is_present (get "schooluserid" payload)

unfoldable pub is_mixed_shape : Value → Bool
is_mixed_shape payload =
    has_school_user_id payload
    && (not (is_undefined (get "lmsuserid" payload))
        || (not (is_undefined (get "organisationid" payload))
            || not (is_undefined (get "isplatform" payload))))

-- `OrgContext`; a context with no `permissions` holds none.
pub record OrgContext : Type 0 where
  pub organisationid : Option String
  pub isplatform : Bool
  pub permissions : List String

-- The names that a payload's `permissions` lists, strings only.
abbrev pub permission_names : Value → List String
permission_names (arr vs) = strings (values vs)
permission_names _ = []

unfoldable pub org_of : Value → Result OrgContext
org_of user =
    if not (is_object user) || has_school_user_id user
    then err unauthorized
    else if not (non_empty (get "lmsuserid" user)) || not (has_organisation_claims user)
    then err unauthorized
    else ok (record {
      organisationid = as_string (get "organisationid" user);
      isplatform = is_true (get "isplatform" user);
      permissions = permission_names (get "permissions" user);
    })

abbrev is_api_key : Value → Bool
is_api_key (str s) = s == "API KEY"
is_api_key _ = false

-- `Object.keys(user).length === 1`, asked only of an object with a property `user`
abbrev has_one_key : Value → Bool
has_one_key (obj fs) = nat_eq (count_keys fs) 1
has_one_key _ = false

unfoldable pub is_server_caller : Value → Bool
is_server_caller user = is_object user && (is_api_key (get "user" user) && has_one_key user)

abbrev pub server_caller_context : OrgContext
server_caller_context = record { organisationid = none; isplatform = true; permissions = [] }

unfoldable pub org_or_server_of : Value → Result OrgContext
org_or_server_of user = if is_server_caller user then ok server_caller_context else org_of user

-- `undefined` (no limit) is `none`.
unfoldable pub org_or_school_user_of : Value → Result (Option OrgContext)
org_or_school_user_of user =
    if has_school_user_id user
    then ok none
    else elim (org_of user) [ ok org ↦ ok (some org) | err e ↦ err e ]
