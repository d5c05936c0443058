-- ===== src/Tests/Requests.antt =====
-- Requests and their guards.
use edtech_lms_api.Prelude.{String, true, Option, none, some, [], ◌∷◌}
use edtech_lms_api.Errors.{Failure}
use edtech_lms_api.Js.{Value, null, str, bool, arr, nil, cons, obj, end, field}
use edtech_lms_api.Claims.{OrgContext}

abbrev payload : Value
payload = obj (
    field "lmsuserid" (str "u1") (
      field "organisationid" null
        (field "isplatform" (bool true) (field "permissions" (arr (cons (str "view") nil)) end))))

abbrev context : OrgContext
context = record { organisationid = none; isplatform = true; permissions = "view" ∷ [] }

abbrev no_failure : Option Failure
no_failure = none

abbrev no_user : Option Value
no_user = none

abbrev header : Option String
header = some "key"
