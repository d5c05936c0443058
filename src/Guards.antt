-- ===== src/Guards.antt =====
-- src/guards: what a route's guards answer for the user that authentication left on the request.
pub mod Laws
use edtech_lms_api.Prelude.{
  String, Bool, true, false, Option, none, some, List, [], ◌==◌, ◌&&◌, ◌||◌, not, any, contains,
  if◌then◌else◌,
}
use edtech_lms_api.Enums.{apikey_role, superadmin_permission}
use edtech_lms_api.Js.{Value, str, obj, end, field, get, is_object, is_true, non_empty}
use edtech_lms_api.Errors.{Result, ok, err, Failure, unauthorized, forbidden, saying, not_found}
use edtech_lms_api.Claims.{has_school_user_id, permission_names}

abbrev pub api_key_user : Value
api_key_user = obj (field "user" (str "API KEY") end)

abbrev is_empty : List String → Bool
is_empty [] = true
is_empty (List.◌∷◌ r rs) = false

-- `header === expected`, false where there is no header
abbrev header_is : String → Option String → Bool
header_is expected none = false
header_is expected (some h) = h == expected

-- `handleRequest`: what authentication left is an error, no user, or a user; `role` are the roles
-- that the guard was built with and `header` is the request's Authorization header,
-- `bearer` the text of it that the application API key makes.
unfoldable pub access_guard :
    List String → String → Option String → Option Failure → Option Value → Result Value
access_guard role bearer header failed user =
    let rejected : Result Value =
      if header_is bearer header && contains role apikey_role
      then ok api_key_user
      else err (elim failed [ some e ↦ e | none ↦ unauthorized ]) in
    elim failed [
      | some e ↦ rejected
      | none ↦ elim user [
        | none ↦ rejected
        | some u ↦
            if is_empty role || any (contains (permission_names (get "lmsuserroles" u))) role
            then ok u
            else err forbidden
      ]
    ]

unfoldable pub has_permission : List String → String → Bool
has_permission permissions perm =
    contains permissions perm || contains permissions superadmin_permission

-- A route that declares no permission is let through.
unfoldable pub check_permissions_guard : Option (List String) → Value → Bool
unfolding has_permission
check_permissions_guard none user = true
check_permissions_guard (some required) user =
    any (has_permission (permission_names (get "permissions" user))) required

unfoldable pub is_platform_user : Value → Bool
is_platform_user user =
    is_object user
    && (not (has_school_user_id user)
        && (non_empty (get "lmsuserid" user) && is_true (get "isplatform" user)))

unfoldable pub platform_guard : Option Value → Result Bool
platform_guard none = err unauthorized
platform_guard (some user) = if is_platform_user user then ok true else err forbidden

unfoldable pub log_import_guard : Bool → Result Bool
log_import_guard enabled =
    if enabled then ok true else err (saying not_found "Log upload is turned off on this server.")
