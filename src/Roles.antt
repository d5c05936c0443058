-- ===== src/Roles.antt =====
-- src/business/session-revocation.ts: ending sessions, and who may give, keep and take away roles.
pub mod Sets
pub mod Laws
use edtech_lms_api.Prelude.{
  String, Bool, true, false, Option, none, some, List, [], ◌∷◌, ◌==◌, ◌&&◌, ◌||◌, not, any, all,
  map, filter, find, length, contains, distinct, nat_eq, is_some, if◌then◌else◌,
}
use edtech_lms_api.Enums.{
  superadmin_role, organisationadmin_role, teacher_role, role_values, superadmin_permission,
}
use edtech_lms_api.Js.{Value, Values, nil, cons, str, arr}
use edtech_lms_api.Errors.{
  Result, ok, err, Failure, saying, not_allowed, invalid_field, throw_if, or_throw, ◌>>=◌, ◌>>◌,
}
use edtech_lms_api.Claims.{OrgContext}
use edtech_lms_api.Permissions.{name_of}
use edtech_lms_api.Store.{
  Collation, Db, User, RoleRow, Permission, role_ids, Token, find_user, destroy_tokens,
}

-- Does some role of the list name Super Admin?
abbrev pub holds_super_admin : List String → Bool
holds_super_admin ids = contains ids superadmin_role

unfoldable pub same_role_set : List String → List String → Bool
same_role_set a b =
    nat_eq (length (distinct a)) (length (distinct b)) && all (contains b) (distinct a)

-- The texts of an array of nothing but texts.
abbrev pub all_strings : Values → Option (List String)
all_strings nil = some []
all_strings (cons (str s) vs) = elim (all_strings vs) [ none ↦ none | some ss ↦ some (s ∷ ss) ]
all_strings (cons _ vs) = none

abbrev pub requested_ids : Value → Option (List String)
requested_ids (arr vs) = all_strings vs
requested_ids _ = none

-- Every requested id's row, if each has one. `byId` holds rows under the id that they spell.
unfoldable pub rows_of : List RoleRow → List String → Option (List RoleRow)
rows_of found [] = some []
rows_of found (id ∷ ids) = elim (find (λ r. r.roleid == id) found) [
  | none ↦ none
  | some row ↦ elim (rows_of found ids) [ none ↦ none | some rows ↦ some (row ∷ rows) ]
]

abbrev pub invalid_roles : String → Failure
invalid_roles name = invalid_field name "Choose roles that exist, each only once."

abbrev pub caller_is_platform : Option OrgContext → Bool
caller_is_platform none = false
caller_is_platform (some org) = org.isplatform

abbrev pub caller_organisation : Option OrgContext → Option String
caller_organisation none = none
caller_organisation (some org) = org.organisationid

abbrev pub caller_permissions : Option OrgContext → List String
caller_permissions none = []
caller_permissions (some org) = org.permissions

unfoldable pub assert_may_modify_user : Option OrgContext → Bool → Result (Unit {0})
assert_may_modify_user caller target_holds =
    throw_if (target_holds && not (caller_is_platform caller))
      (saying not_allowed "Only a platform user can change a Super Admin account.")

unfoldable pub assert_may_set_roles :
    Option OrgContext → Bool → List RoleRow → Option String → Result (Unit {0})
assert_may_set_roles caller had new_roles target =
    if holds_super_admin (role_ids new_roles)
    then throw_if (not (caller_is_platform caller) || is_some target) (
        saying not_allowed
          "The Super Admin role can only be given to a platform account, by a platform user.")
    else throw_if (had && not (caller_is_platform caller))
        (saying not_allowed "Only a platform user can remove the Super Admin role.")

abbrev assignable_by_organisation : List String
assignable_by_organisation = organisationadmin_role ∷ teacher_role ∷ []

-- A role that is not built in, or one that is built in for organisations.
unfoldable pub is_eligible : String → Bool
is_eligible id = not (contains role_values id) || contains assignable_by_organisation id

unfoldable pub is_unscoped_platform : Option OrgContext → Bool
is_unscoped_platform caller =
    caller_is_platform caller && not (is_some (caller_organisation caller))

-- Does the caller hold the wildcard, or every permission of the row?
unfoldable pub holds_all_of : Option OrgContext → RoleRow → Bool
holds_all_of caller row =
    contains (caller_permissions caller) superadmin_permission
    || all (contains (caller_permissions caller)) (map name_of row.permissions)

abbrev pub is_nil {ℓ} : {A : Type ℓ} → List A → Bool
is_nil [] = true
is_nil (x ∷ xs) = false

module _ (c : Collation) where
  open c use {matches}

  -- `revokeIfRolesChanged`: the tables, and whether the set changed
  unfoldable pub revoke_if_roles_changed : String → List String → List String → Db → Bool × Db
  revoke_if_roles_changed lmsuserid before after db =
      if not (same_role_set before after)
      then (true, destroy_tokens c lmsuserid db)
      else (false, db)

  -- `where: { roleid: { [Op.in]: ids } }`
  abbrev pub roles_in : List String → Db → List RoleRow
  roles_in ids db = filter (λ r. any (matches r.roleid) ids) db.roles

  unfoldable pub resolve_requested_roles : Value → String → Db → Result (List RoleRow)
  resolve_requested_roles requested name db = do
    ids ← or_throw (requested_ids requested) (invalid_roles name)
    throw_if (not (nat_eq (length (distinct ids)) (length ids))) (invalid_roles name)
    or_throw (rows_of (roles_in ids db) ids) (invalid_roles name)

  -- The set of ids, as the list of them.
  unfoldable pub roles_caller_may_add : Option OrgContext → List RoleRow → Db → List String
  roles_caller_may_add caller candidates db =
      if is_unscoped_platform caller
      then role_ids candidates
      else let eligible = filter (λ r. is_eligible r.roleid) candidates in
        role_ids (
          filter (λ row. contains (role_ids eligible) row.roleid && holds_all_of caller row)
            (roles_in (role_ids eligible) db))

  unfoldable pub assert_may_add_roles :
      Option OrgContext → List String → List RoleRow → Db → Result (Unit {0})
  assert_may_add_roles caller current new_roles db =
      let added = filter (λ r. not (contains current r.roleid)) new_roles in
      throw_if
        (not (is_unscoped_platform caller)
          && any (λ r. not (contains (roles_caller_may_add caller added db) r.roleid)) added)
        (saying not_allowed "You can't give a role that has more access than your own.")

  unfoldable pub is_within_reach : Option OrgContext → List RoleRow → Bool → Db → Bool
  is_within_reach caller held is_self db =
      (is_self || is_unscoped_platform caller)
      || all (λ r. contains (roles_caller_may_add caller held db) r.roleid) held

  unfoldable pub assert_may_change_sign_in :
      Option OrgContext → List RoleRow → Bool → Bool → Bool → Db → Result (Unit {0})
  assert_may_change_sign_in caller held is_self changes_email changes_password db =
      throw_if ((changes_email || changes_password) && not (is_within_reach caller held is_self db))
        (saying not_allowed
          "You can't change the sign-in details of an account that has more access than your own.")

  -- The accounts that hold the role, and the tables with their sessions ended.
  unfoldable pub revoke_role_holders : String → Db → List String × Db
  revoke_role_holders roleid db =
      let ids =
        map (λ u. u.lmsuserid) (filter (λ u. any (λ r. matches r roleid) u.roleids) db.users) in
      (ids, record db { tokens = filter (λ t. not (any (matches t.lmsuserid) ids)) db.tokens })
