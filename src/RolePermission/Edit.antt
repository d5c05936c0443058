-- ===== src/RolePermission/Edit.antt =====
-- src/business/role-permission.business.ts: creating and changing a role, each in one transaction.
use Prim.Native.Char.{code}
use edtech_lms_api.Prelude.{
  String, Bool, true, false, Option, none, some, List, [], ◌∷◌, ◌++◌, ◌==◌, ◌&&◌, ◌||◌, not, filter,
  find, any, map, length, distinct, codes, nat_eq, leb, ℕ, if◌then◌else◌,
}
use edtech_lms_api.Enums.{superadmin_role}
use edtech_lms_api.Errors.{
  Result, ok, Failure, plain, saying, not_found, invalid_field, throw_if, or_throw, ◌>>=◌, ◌>>◌,
}
use edtech_lms_api.Roles.{same_role_set, revoke_role_holders}
use edtech_lms_api.Store.{Collation, Db, Permission, PermissionTitle, RoleRow, Action, transaction}

starts : List ℕ → List ℕ → Bool
starts [] cs = true
starts (p ∷ ps) [] = false
starts (p ∷ ps) (c ∷ cs) = nat_eq p c && starts ps cs

occurs : List ℕ → List ℕ → Bool
unfolding starts
occurs ps [] = starts ps []
occurs ps (c ∷ cs) = starts ps (c ∷ cs) || occurs ps cs

-- `element.includes('all_')`
unfoldable pub names_group : String → Bool
unfolding occurs
names_group s = occurs (codes "all_") (codes s)

rest_of : String → Option String
rest_of String.[] = none
rest_of (String.◌∷◌ c s) = let later = rest_of s in if nat_eq (code c) b'_' then some s else later

-- `ptid.substring(ptid.indexOf("_") + 1)`: all of it where there is no underscore
unfoldable pub title_of : String → String
unfolding rest_of
title_of s = elim (rest_of s) [ none ↦ s | some t ↦ t ]

abbrev pub permission_ids : List Permission → List String
permission_ids ps = map (λ p. p.permissionid) ps

abbrev pub is_group_kind : ℕ → Bool
is_group_kind n = nat_eq n 1 || nat_eq n 3

abbrev pub every_permission : Failure
every_permission =
    invalid_field "permissionsid"
      "A role can't hold every permission, because that would make it Super Admin. Leave at least one out."

-- The kinds that have groups under them.
abbrev pub is_parent_kind : ℕ → Bool
is_parent_kind n = nat_eq n 2 || nat_eq n 4

unfoldable pub assert_not_every_permission : String → List Permission → Db → Result (Unit {0})
assert_not_every_permission roleid perms db =
    if roleid == superadmin_role
    then ok tt
    else let total = length db.permissions in
      throw_if (not (nat_eq total 0) && leb total (length (distinct (permission_ids perms))))
        every_permission

-- What a request says of a role.
pub record RoleRequest : Type 0 where
  pub roleid : String
  pub rolename : String
  pub perms : List String

abbrev pub no_such_role : Failure
no_such_role = saying not_found "That role doesn't exist."

-- The row that an update has found, and the permissions it is given.
pub record RoleChange : Type 0 where
  pub row : RoleRow
  pub resolved : List Permission
  pub linked : List Permission

-- Every group's permissions, those of a group found by `own`.
abbrev pub over_groups :
    (PermissionTitle → List Permission) → List PermissionTitle → List Permission
over_groups own [] = []
over_groups own (t ∷ ts) = own t ++ over_groups own ts

module _ (c : Collation) where
  open c use {matches}

  -- The permissions of a group.
  abbrev pub permissions_of : PermissionTitle → Db → List Permission
  permissions_of t db = filter (λ p. matches t.permissiontitleid p.permissiontitleid) db.permissions

  -- A row with no parent is under none.
  abbrev pub is_under : String → Option String → Bool
  is_under id none = false
  is_under id (some parent) = matches parent id

  -- The groups of a kind right under a group.
  abbrev pub groups_under : String → ℕ → Db → List PermissionTitle
  groups_under id n db = filter (λ t. is_under id t.parentid && nat_eq t.kind n) db.titles

  -- The groups of kind 3 right under a group.
  abbrev pub leaf_permissions : Db → PermissionTitle → List Permission
  leaf_permissions db t =
      over_groups (λ leaf. permissions_of leaf db) (groups_under t.permissiontitleid 3 db)

  -- What one group of kind 2 or 4 stands for: the leaves under its groups of kind 4, its own
  -- leaves, and its own permissions.
  abbrev pub parent_permissions : Db → PermissionTitle → List Permission
  parent_permissions db t =
      over_groups (leaf_permissions db) (groups_under t.permissiontitleid 4 db)
      ++ (leaf_permissions db t ++ permissions_of t db)

  -- `checkParentRole`
  unfoldable pub check_parent_role : List String → Db → List Permission
  check_parent_role all_permstitle db = over_groups (parent_permissions db) (
      filter (λ t. any (matches t.permissiontitleid) all_permstitle && is_parent_kind t.kind)
        db.titles)

  -- The permissions that ids and groups stand for. `_.union` tells rows apart as objects, and each
  -- query makes its own, so a row that two of the lists have is there twice.
  unfoldable pub resolve_perms : List String → Db → List Permission
  unfolding check_parent_role
  resolve_perms permissionsid db =
      let titles = map title_of (filter names_group permissionsid) in
      filter (λ p. any (matches p.permissionid) (filter (λ s. not (names_group s)) permissionsid))
        db.permissions
      ++ (check_parent_role titles db
          ++ filter
              (λ p.
                any
                  (λ t.
                    matches t.permissiontitleid p.permissiontitleid
                    && (any (matches t.permissiontitleid) titles && is_group_kind t.kind))
                  db.titles)
              db.permissions)

  -- `set_permissions` is the call of the database layer that links a role to rows; it may throw.
  module _ (set_permissions : List Permission → Option (List Permission)) where
    -- The refusals of `createRole`, for the fresh uuid `id`: the row that is written.
    unfoldable pub new_role : RoleRequest → String → Db → Result RoleRow
    new_role req id db = do
      let resolved = resolve_perms req.perms db
      assert_not_every_permission id resolved db
      linked ← or_throw (set_permissions resolved) (plain "setPermissions")
      ok (record { roleid = id; rolename = req.rolename; permissions = linked })

    unfoldable pub create_role : RoleRequest → String → Action RoleRow
    unfolding new_role
    create_role req id =
        transaction
          (λ db. new_role req id db >>= λ row. ok (row, record db { roles = row ∷ db.roles }))

    -- The refusals of `updateRole`.
    unfoldable pub role_change : RoleRequest → Db → Result RoleChange
    role_change req db = do
      row ← or_throw (find (λ r. matches r.roleid req.roleid) db.roles) no_such_role
      let resolved = resolve_perms req.perms db
      assert_not_every_permission row.roleid resolved db
      linked ← or_throw (set_permissions resolved) (plain "setPermissions")
      ok (record { row = row; resolved = resolved; linked = linked })

  abbrev pub changed_role : RoleRequest → RoleChange → RoleRow
  changed_role req change = record change.row {
    rolename = req.rolename;
    permissions = change.linked;
  }

  -- The row is replaced; a changed set of permissions ends the sessions of the role's holders.
  unfoldable pub write_role : RoleRequest → Db → RoleChange → RoleRow × Db
  write_role req db change =
      let row = changed_role req change in
      let saved = record db {
        roles = map (λ r. if matches r.roleid row.roleid then row else r) db.roles;
      } in
      let unchanged =
        same_role_set (permission_ids change.row.permissions) (permission_ids change.resolved) in
      (row, if not unchanged then (revoke_role_holders c change.row.roleid saved).1 else saved)

  unfoldable pub update_role :
      (List Permission → Option (List Permission)) → RoleRequest → Action RoleRow
  unfolding role_change write_role
  update_role set_permissions req =
      transaction
        (λ db. role_change set_permissions req db >>= λ change. ok (write_role req db change))
