-- ===== src/Permissions.antt =====
-- src/business/role-permission.business.ts, `convertRolesPermsToArrayOfString`: the permission
-- names that a token carries.
use edtech_lms_api.Prelude.{
  String, Bool, true, false, List, [], ◌∷◌, ◌++◌, ◌&&◌, not, map, length, nat_eq, distinct,
  if◌then◌else◌,
}
use edtech_lms_api.Enums.{superadmin_permission}
use edtech_lms_api.Store.{Db, RoleRow, Permission}

abbrev pub name_of : Permission → String
name_of p = p.permissionname

-- The two nested loops that push each name.
unfoldable pub granted_names : List RoleRow → List String
granted_names [] = []
granted_names (r ∷ rs) = map name_of r.permissions ++ granted_names rs

-- The wildcard is awarded by count.
unfoldable pub with_wildcard : List String → List Permission → List String
with_wildcard perms all_permissions =
    if not (nat_eq (length all_permissions) 0) && nat_eq (length perms) (length all_permissions)
    then perms ++ superadmin_permission ∷ []
    else perms

unfoldable pub convert_roles_perms : List RoleRow → Bool → Db → List String
unfolding granted_names with_wildcard
convert_roles_perms roles false db = with_wildcard (distinct (granted_names roles)) db.permissions
convert_roles_perms roles true db = map name_of db.permissions ++ superadmin_permission ∷ []
