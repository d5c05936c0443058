-- ===== src/Tests/Grants.antt =====
-- Roles, on the small organisation.
use edtech_lms_api.Prelude.{
  ◌≡◌, refl, subst, ◌⊎◌, inl, inr, true, false, Option, none, some, List, [], ◌∷◌, arith, ◌==◌,
  contains, distinct,
}
use mathlib.Core.Path.{subst}
use edtech_lms_api.Enums.{teacher_role}
use edtech_lms_api.Tests.{exact, view, edit, teacher_row, bob, db, school_caller}
use edtech_lms_api.Errors.{ok}
use edtech_lms_api.Js.{str, arr, nil, cons}
use edtech_lms_api.Roles.{
  same_role_set, rows_of, assert_may_modify_user, assert_may_set_roles, is_eligible,
  is_unscoped_platform, holds_all_of, revoke_if_roles_changed, resolve_requested_roles,
  roles_caller_may_add, assert_may_add_roles,
}
use edtech_lms_api.Roles.Sets.{same_role_set_iff}
use edtech_lms_api.Scope.{scope_of, owned_where, find_owned_user}
use edtech_lms_api.Session.{OrganisationClaims, session_is_current}
use edtech_lms_api.Staff.{organisation_after_change}
use edtech_lms_api.Store.{Permission, User, Db, save_user}
use edtech_lms_api.User.{no_such_user}
use edtech_lms_api.User.Escalation.{MayGive}
use edtech_lms_api.RolePermission.{bound_roles, write_roles, bind_user_roles}
use edtech_lms_api.RolePermission.Laws.{bind_user_roles-bounded}
use edtech_lms_api.RolePermission.Sessions.{bind_user_roles-ends_sessions}
use edtech_lms_api.RolePermission.Edit.{
  names_group, title_of, permission_ids, assert_not_every_permission, RoleRequest,
  check_parent_role, resolve_perms, role_change, write_role, update_role,
}
use edtech_lms_api.RolePermission.Wildcard.{LinksWhatItIsGiven, IsBounded, update_role-IsBounded}
use edtech_lms_api.RolePermission.Holders.{update_role-ends_sessions}

-- A layer that links each row it is given.
abbrev link : List Permission → Option (List Permission)
link ps = some ps

link_all : LinksWhatItIsGiven link
link_all given linked h =
    subst (λ o. linked_same given o) h
      ((same_role_set_iff (permission_ids given) (permission_ids given)).1 ((λ a m. m), λ a m. m))
  where
    linked_same : List Permission → Option (List Permission) → Type 0
    linked_same g none = Unit
    linked_same g (some l) = same_role_set (permission_ids l) (permission_ids g) ≡ true

-- The group `t1` and, under it through a group of kind 4, the group `t3` of the permission `p3`.
abbrev grouped : Db
grouped = record db {
  permissions =
      view
      ∷ edit
      ∷ record { permissionid = "p3"; permissionname = "print"; permissiontitleid = "t3" }
      ∷ [];
  titles =
      record { permissiontitleid = "t1"; kind = 1; parentid = none }
      ∷ record { permissiontitleid = "t0"; kind = 2; parentid = none }
      ∷ record { permissiontitleid = "t2"; kind = 4; parentid = some "t0" }
      ∷ record { permissiontitleid = "t3"; kind = 3; parentid = some "t2" }
      ∷ [];
}

grouped-IsBounded : IsBounded grouped
unfolding ◌==◌ distinct
grouped-IsBounded = ((λ h. absurd (ground arith)), ((λ h n. omega arith), tt))

abbrev request : RoleRequest
request = record { roleid = teacher_role; rolename = "Tutor"; perms = "all_t0" ∷ "p2" ∷ [] }

update_role-IsBounded_example : IsBounded (update_role exact link request grouped).1
update_role-IsBounded_example =
    update_role-IsBounded exact link request grouped link_all grouped-IsBounded

abbrev claims : OrganisationClaims
claims = record { organisationid = some "o1"; isplatform = false }

update_role-ends_sessions_example :
    session_is_current exact "a2" "u2" claims (update_role exact link request grouped).1 ≡ false
unfolding ◌==◌ contains distinct update_role role_change write_role resolve_perms check_parent_role
    names_group title_of assert_not_every_permission same_role_set
update_role-ends_sessions_example =
    update_role-ends_sessions exact link request grouped teacher_row
      (record {
        roleid = teacher_role;
        rolename = "Tutor";
        permissions =
            edit
            ∷ record { permissionid = "p3"; permissionname = "print"; permissiontitleid = "t3" }
            ∷ [];
      })
      bob "a2" claims refl refl refl (inr (inl refl)) refl

bind_user_roles-bounded_example :
    (old : User) × (find_owned_user exact school_caller "u2" no_such_user db ≡ ok old)
    × ((contains old.roleids teacher_role ≡ true) ⊎ MayGive exact school_caller db teacher_role)
unfolding ◌==◌ contains distinct bind_user_roles bound_roles write_roles scope_of find_owned_user
    owned_where resolve_requested_roles rows_of organisation_after_change assert_may_modify_user
    assert_may_set_roles assert_may_add_roles is_unscoped_platform roles_caller_may_add is_eligible
    holds_all_of same_role_set revoke_if_roles_changed save_user
bind_user_roles-bounded_example =
    bind_user_roles-bounded exact "u2" (arr (cons (str teacher_role) nil)) school_caller db
      teacher_role (teacher_row ∷ []) refl refl refl

-- An account whose only role is taken.
bind_user_roles-ends_sessions_example :
    session_is_current exact "a2" "u2" claims
      (bind_user_roles exact "u2" (arr nil) school_caller db).1
    ≡ false
unfolding ◌==◌ contains distinct bind_user_roles bound_roles write_roles scope_of find_owned_user
    owned_where resolve_requested_roles rows_of organisation_after_change assert_may_modify_user
    assert_may_set_roles assert_may_add_roles is_unscoped_platform roles_caller_may_add is_eligible
    holds_all_of same_role_set revoke_if_roles_changed save_user
bind_user_roles-ends_sessions_example =
    bind_user_roles-ends_sessions exact "u2" (arr nil) school_caller db [] bob "a2" claims refl refl
      refl
