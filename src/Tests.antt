-- ===== src/Tests.antt =====
-- A small organisation, its accounts and its tables, on which the theorems are tried.
mod Sessions
mod Accounts
mod Requests
mod Lessons
mod Grants
mod Publications
mod Served
mod Copies
mod Lists
use edtech_lms_api.Prelude.{
  String, Bool, true, false, Option, none, some, List, [], ◌∷◌, ◌≡◌, refl, sym, ◌∙◌, ap, ◌==◌,
  eq_self, eq_true, eq_of,
}
use edtech_lms_api.Enums.{superadmin_role, teacher_role}
use edtech_lms_api.Env.{Env}
use edtech_lms_api.Js.{Value, null, num, str, obj, end, field}
use edtech_lms_api.Store.{Collation, Db, User, RoleRow, Permission, Organisation, Token, TokenType}
use edtech_lms_api.Auth.{LoadedUser, Uuids}
use edtech_lms_api.Claims.{OrgContext}

-- The comparison that takes only equal texts for the same.
abbrev pub exact : Collation
exact = record {
  matches = λ s t. s == t;
  matches_refl = eq_self;
  matches_sym = λ s t h. eq_of t s (sym (eq_true s t h));
  matches_trans = λ s t u h g. eq_of s u (eq_true s t h ∙ eq_true t u g);
}

-- A refresh token is its own row's id; a password is its own hash.
abbrev pub env : Env
env = record {
  sign = λ payload secret. "signed";
  verify = λ token secret. some (obj (field "jti" (str token) end));
  decode = λ token. none;
  hash_password = λ p. p;
  verify_password = λ p hash. p == hash;
  issued_at = num 0;
  expires_at = λ minutes. num minutes;
  is_local = false;
  applicationsecret = "secret";
  accessexpirationminutes = 5;
  refreshexpirationminutes = 60;
  changepasswordexpirationminutes = 60;
}

abbrev pub view : Permission
view = record { permissionid = "p1"; permissionname = "view"; permissiontitleid = "t1" }

abbrev pub edit : Permission
edit = record { permissionid = "p2"; permissionname = "edit"; permissiontitleid = "t1" }

abbrev pub superadmin_row : RoleRow
superadmin_row = record {
  roleid = superadmin_role;
  rolename = "Super Admin";
  permissions = view ∷ edit ∷ [];
}

abbrev pub teacher_row : RoleRow
teacher_row = record { roleid = teacher_role; rolename = "Teacher"; permissions = view ∷ [] }

abbrev pub alice : User
alice = record {
  lmsuserid = "u1";
  lmsusername = "alice@example.org";
  lmsuserpasswordhash = "open";
  lmsuserrole = superadmin_role;
  organisationid = none;
  isdisabled = false;
  isverified = true;
  roleids = superadmin_role ∷ [];
  firstname = str "Alice";
  lastname = null;
  countries = null;
  schools = null;
  created_by = none;
  updated_by = none;
}

abbrev pub bob : User
bob = record alice {
  lmsuserid = "u2";
  lmsusername = "bob@example.org";
  organisationid = some "o1";
  roleids = teacher_role ∷ [];
}

abbrev pub organisation_row : Organisation
organisation_row = record { organisationid = "o1"; isdeleted = false; organisationstatus = true }

abbrev pub token_of : String → String → TokenType → Token
token_of jti id type = record { token = jti; lmsuserid = id; tokentype = type }

abbrev pub db : Db
db = record {
  users = alice ∷ bob ∷ [];
  organisations = organisation_row ∷ [];
  roles = superadmin_row ∷ teacher_row ∷ [];
  permissions = view ∷ edit ∷ [];
  titles = record { permissiontitleid = "t1"; kind = 1; parentid = none } ∷ [];
  tokens =
      token_of "a1" "u1" TokenType.access
      ∷ token_of "r1" "u1" TokenType.refresh
      ∷ token_of "a2" "u2" TokenType.access
      ∷ token_of "r2" "u2" TokenType.refresh
      ∷ [];
}

abbrev pub loaded_alice : LoadedUser
loaded_alice = record { user = alice; held = superadmin_row ∷ [] }

abbrev pub ids : Uuids
ids = record { misc = "m"; access = "a9"; refresh = "r9" }

-- The platform's caller, and the organisation's.
abbrev pub platform_caller : Option OrgContext
platform_caller =
    some (record { organisationid = none; isplatform = true; permissions = "superadmin" ∷ [] })

abbrev pub school_caller : Option OrgContext
school_caller =
    some (record { organisationid = some "o1"; isplatform = false; permissions = "view" ∷ [] })
