-- ===== src/RolePermission.antt =====
-- src/business/role-permission.business.ts: giving roles to an account, in one transaction.
pub mod Laws
pub mod Edit
pub mod Asked
pub mod Resolved
pub mod Wildcard
pub mod Holders
pub mod Sessions
use edtech_lms_api.Prelude.{String, Bool, Option, List, ◌≡◌}
use edtech_lms_api.Js.{Value}
use edtech_lms_api.Errors.{Result, ok, err, ◌>>=◌, ◌>>◌}
use edtech_lms_api.Claims.{OrgContext}
use edtech_lms_api.Scope.{scope_of, find_owned_user}
use edtech_lms_api.Staff.{not_sent, organisation_after_change}
use edtech_lms_api.Roles.{
  holds_super_admin, resolve_requested_roles, assert_may_set_roles, assert_may_add_roles,
  assert_may_modify_user, revoke_if_roles_changed,
}
use edtech_lms_api.Store.{Collation, Db, User, RoleRow, role_ids, Action, transaction, save_user}
use edtech_lms_api.User.{no_such_user}

module _ (c : Collation) where
  -- The refusals of `bindUserRoles`: the account and the roles that pass them.
  unfoldable pub bound_roles :
      String → Value → Option OrgContext → Db → Result (User × List RoleRow)
  bound_roles lmsuserid rolesid org db = do
    _ ← scope_of org
    user ← find_owned_user c org lmsuserid no_such_user db
    let had = holds_super_admin user.roleids
    assert_may_modify_user org had
    rows ← resolve_requested_roles c rolesid "rolesid" db
    _ ←
        organisation_after_change c org not_sent user.organisationid had
          (holds_super_admin (role_ids rows)) db
    assert_may_set_roles org had rows user.organisationid
    assert_may_add_roles c org user.roleids rows db
    ok (user, rows)

  -- `user.setRoles(rows)`, and the end of the sessions of an account whose set changed.
  unfoldable pub write_roles : Db → User × List RoleRow → List RoleRow × Db
  write_roles db (user, rows) = (
    rows,
    (revoke_if_roles_changed c user.lmsuserid user.roleids (role_ids rows)
        (save_user c (record user { roleids = role_ids rows }) db)).1,
  )

  unfoldable pub bind_user_roles : String → Value → Option OrgContext → Action (List RoleRow)
  unfolding bound_roles write_roles
  bind_user_roles lmsuserid rolesid org =
      transaction
        (λ db. bound_roles lmsuserid rolesid org db >>= λ found. ok (write_roles db found))
