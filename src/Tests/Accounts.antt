-- ===== src/Tests/Accounts.antt =====
-- Changes of accounts, on the small organisation.
use edtech_lms_api.Prelude.{
  String, true, false, Option, none, some, [], ◌∷◌, ◌≡◌, refl, ◌==◌, contains, inl, arith, distinct,
  not, All, IsIn, all, map, ◌⊎◌, ap,
}
use edtech_lms_api.Enums.{teacher_role, superadmin_permission}
use edtech_lms_api.Tests.{exact, env, db, bob, teacher_row, platform_caller, school_caller}
use edtech_lms_api.Errors.{ok}
use edtech_lms_api.Js.{Value, null, str, arr, nil, cons}
use edtech_lms_api.Store.{User, RoleRow, save_user, create_user_row, destroy_tokens}
use edtech_lms_api.Permissions.{name_of}
use edtech_lms_api.Scope.{scope_of, find_owned_user, owned_where, lock_live_organisation, platform}
use edtech_lms_api.Session.{OrganisationClaims, session_is_current, same_text}
use edtech_lms_api.Staff.{
  not_sent, sent, organisation_for_new_account, organisation_after_change, AfterChange, is_live,
  resulting,
}
use edtech_lms_api.Staff.Laws.{organisation_after_change-ok}
use edtech_lms_api.Roles.{
  resolve_requested_roles, assert_may_set_roles, assert_may_add_roles, assert_may_modify_user,
  assert_may_change_sign_in, same_role_set, rows_of, is_unscoped_platform, roles_caller_may_add,
  is_eligible, holds_all_of, caller_permissions, is_within_reach,
}
use edtech_lms_api.Roles.Laws.{roles_caller_may_add-bounded}
use edtech_lms_api.User.{
  UserRequest, create_user, update_user, disable_user_by_id, new_account, new_row, user_change,
  changed_row, end_sessions, no_such_user,
}
use edtech_lms_api.User.Placement.{IsPlaced}
use edtech_lms_api.User.Placed.{
  create_user-IsPlaced, update_user-IsPlaced, disable_user_by_id-IsPlaced,
}
use edtech_lms_api.User.Escalation.{
  create_user-bounded, update_user-bounded, update_user-ends_sessions, MayGive,
}
use edtech_lms_api.RolePermission.{bind_user_roles}
use edtech_lms_api.RolePermission.Laws.{bind_user_roles-IsPlaced}

db-IsPlaced : All IsPlaced db.users
unfolding ◌==◌ contains
db-IsPlaced = (
  record { platform_account = λ h. refl; has_a_place = λ h. absurd (ground arith) },
  (
    record {
      platform_account = λ h. absurd (ground arith);
      has_a_place = λ h g. absurd (ground (arith, ap (λ o. same_text o none) g));
    },
    tt,
  ),
)

abbrev teacher_only : Value
teacher_only = arr (cons (str "Q3Qs7PuD") nil)

-- A request for an account, in Bob's organisation.
abbrev asked : String → UserRequest
asked id = record {
  lmsuserid = id;
  lmsusername = "bob@example.org";
  lmsuserpasswordhash = "";
  requested = not_sent;
  isdisabled = false;
  isverified = true;
  firstname = null;
  lastname = null;
  countries = null;
  schools = null;
}

create_user-IsPlaced_example :
    All IsPlaced
      (create_user exact env (asked "u3") teacher_only none school_caller "u3" db).1.users
create_user-IsPlaced_example =
    create_user-IsPlaced exact env (asked "u3") teacher_only none school_caller "u3" db db-IsPlaced

update_user-IsPlaced_example :
    All IsPlaced (update_user exact env (asked "u2") teacher_only none school_caller db).1.users
update_user-IsPlaced_example =
    update_user-IsPlaced exact env (asked "u2") teacher_only none school_caller db db-IsPlaced

disable_user_by_id-IsPlaced_example :
    All IsPlaced (disable_user_by_id exact env "u1" platform_caller db).1.users
disable_user_by_id-IsPlaced_example =
    disable_user_by_id-IsPlaced exact env "u1" platform_caller db db-IsPlaced

bind_user_roles-IsPlaced_example :
    All IsPlaced (bind_user_roles exact "u2" (arr nil) school_caller db).1.users
bind_user_roles-IsPlaced_example =
    bind_user_roles-IsPlaced exact "u2" (arr nil) school_caller db db-IsPlaced

-- The teacher that a caller with the teacher's permissions makes.
abbrev made : User
made = record bob {
  lmsuserid = "u3";
  lmsuserpasswordhash = "";
  organisationid = some "o1";
  firstname = null;
}

create_user-bounded_example : MayGive exact school_caller db teacher_role
unfolding ◌==◌ contains distinct create_user new_account new_row scope_of resolve_requested_roles
    rows_of organisation_for_new_account lock_live_organisation assert_may_set_roles
    assert_may_add_roles is_unscoped_platform roles_caller_may_add is_eligible holds_all_of
    create_user_row
create_user-bounded_example =
    create_user-bounded exact school_caller db env (asked "u3") teacher_only none "u3" teacher_role
      made refl refl refl

update_user-bounded_example :
    (old : User) × (find_owned_user exact school_caller "u2" no_such_user db ≡ ok old)
    × ((contains old.roleids teacher_role ≡ true) ⊎ MayGive exact school_caller db teacher_role)
unfolding ◌==◌ contains distinct update_user user_change changed_row end_sessions scope_of
    find_owned_user owned_where resolve_requested_roles rows_of organisation_after_change
    lock_live_organisation assert_may_modify_user assert_may_change_sign_in is_within_reach
    assert_may_set_roles assert_may_add_roles is_unscoped_platform roles_caller_may_add is_eligible
    holds_all_of same_role_set save_user destroy_tokens
update_user-bounded_example =
    update_user-bounded exact school_caller db env (asked "u2") teacher_only none teacher_role
      (record bob { firstname = str "Alice" }) refl refl refl

abbrev bobs_claims : OrganisationClaims
bobs_claims = record { organisationid = some "o1"; isplatform = false }

update_user-ends_sessions_example :
    session_is_current exact "a2" "u2" bobs_claims
      (update_user exact env (asked "u2") (arr nil) none school_caller db).1
    ≡ false
unfolding ◌==◌ contains distinct update_user user_change changed_row end_sessions scope_of
    find_owned_user owned_where resolve_requested_roles rows_of organisation_after_change
    lock_live_organisation assert_may_modify_user assert_may_change_sign_in is_within_reach
    assert_may_set_roles assert_may_add_roles is_unscoped_platform roles_caller_may_add is_eligible
    holds_all_of same_role_set save_user destroy_tokens
update_user-ends_sessions_example =
    update_user-ends_sessions exact school_caller db env (asked "u2") (arr nil) none
      (record bob { roleids = [] }) bob "a2" bobs_claims refl refl (inl refl)

roles_caller_may_add-bounded_example :
    (is_eligible teacher_role ≡ true)
    × ((row : RoleRow) × (row.roleid ≡ teacher_role)
        × IsIn row db.roles
        × ((contains (caller_permissions school_caller) superadmin_permission ≡ true)
            ⊎ (all (contains (caller_permissions school_caller)) (map name_of row.permissions)
                ≡ true)))
unfolding ◌==◌ contains is_unscoped_platform roles_caller_may_add is_eligible holds_all_of
roles_caller_may_add-bounded_example =
    roles_caller_may_add-bounded exact school_caller (teacher_row ∷ []) db teacher_role refl refl

-- The organisation that the platform chooses.
abbrev chosen : Option String
chosen = some "o1"

abbrev moved : AfterChange
moved = record { organisationid = none; changed = true }

organisation_after_change-ok_example :
    (moved.organisationid ≡ resulting (sent none) (some "o1"))
    × (moved.changed ≡ not (same_text (resulting (sent none) (some "o1")) (some "o1")))
    × ((sent none ≡ not_sent) ⊎ (scope_of platform_caller ≡ ok platform))
    × ((id : String)
        → moved.changed ≡ true
        → true ≡ false
        → moved.organisationid ≡ some id
        → is_live exact id db ≡ true)
    × (moved.organisationid ≡ none → true ≡ false → (moved.changed ≡ false) × (false ≡ false))
unfolding ◌==◌ organisation_after_change scope_of lock_live_organisation
organisation_after_change-ok_example =
    organisation_after_change-ok exact platform_caller (sent none) (some "o1") false true db moved
      refl
