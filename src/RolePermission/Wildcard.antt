-- ===== src/RolePermission/Wildcard.antt =====
-- No role but Super Admin holds every permission.
use mathlib.Core.Path.{subst}
use edtech_lms_api.Prelude.{
  String, Bool, true, false, Option, none, some, List, [], ◌∷◌, ◌≡◌, sym, ◌∙◌, ap, arith, inl, inr,
  ◌≢◌, All, ◌==◌, ◌&&◌, not, find, map, length, distinct, nat_eq, leb, ℕ, if◌then◌else◌, ◌<◌,
  Bool-cases,
}
use edtech_lms_api.Enums.{superadmin_role}
use edtech_lms_api.Errors.{ok, Failure, throw_if, or_throw, >>=-eq-ok, >>-eq-ok, plain}
use edtech_lms_api.Roles.{same_role_set, revoke_role_holders}
use edtech_lms_api.Store.{Collation, Db, Permission, RoleRow}
use edtech_lms_api.Store.Transactions.{transaction-keeps}
use edtech_lms_api.RolePermission.Edit.{
  RoleRequest, RoleChange, permission_ids, assert_not_every_permission, every_permission,
  resolve_perms, new_role, create_role, role_change, changed_role, write_role, update_role,
  no_such_role,
}

-- The role does not hold as many permissions as there are, unless it is Super Admin's.
abbrev pub IsPartial : List Permission → RoleRow → Type 0
IsPartial all_permissions r =
    (r.roleid == superadmin_role) ≡ false
    → length all_permissions ≢ 0
    → length (distinct (permission_ids r.permissions)) < length all_permissions

-- The database layer links the set of rows that it is given.
abbrev pub LinksWhatItIsGiven : (List Permission → Option (List Permission)) → Type 0
LinksWhatItIsGiven set =
    (given linked : List Permission)
    → set given ≡ some linked
    → same_role_set (permission_ids linked) (permission_ids given) ≡ true

All-replaced :
    {A : Type 0} (P : A → Type 0) (p : A → Bool) (a : A) (xs : List A)
    → P a
    → All P xs
    → All P (map (λ v. if p v then a else v) xs)
All-replaced P p a [] h hs = tt
All-replaced P p a (v ∷ vs) h (hv, hs) = elim (Bool-cases (p v)) [
  | inl e ↦ rw e (h, All-replaced P p a vs h hs)
  | inr e ↦ rw e (hv, All-replaced P p a vs h hs)
]

nat_eq-true : (a b : ℕ) → nat_eq a b ≡ true → a ≡ b
nat_eq-true a b h = ground arith

leb-false : (a b : ℕ) → leb a b ≡ false → b < a
leb-false a b h = ground arith

refused-few :
    (n r : ℕ) (t : Bool)
    → t ≡ false
    → (if t then ok tt else throw_if (not (nat_eq n 0) && leb n r) every_permission) ≡ ok (tt {0})
    → n ≢ 0
    → leb n r ≡ false
refused-few n r true e h k = cc
refused-few n r false e h k = elim (Bool-cases (nat_eq n 0)) [
  | inl z ↦ absurd (k (nat_eq-true n 0 z))
  | inr z ↦ ground arith
]

checked-IsPartial :
    (roleid : String) (name : String) (resolved linked : List Permission) (db : Db)
    → assert_not_every_permission roleid resolved db ≡ ok tt
    → same_role_set (permission_ids linked) (permission_ids resolved) ≡ true
    → IsPartial db.permissions (record { roleid = roleid; rolename = name; permissions = linked })
unfolding assert_not_every_permission same_role_set
checked-IsPartial roleid name resolved linked db h same other nonempty =
    let l = length (distinct (permission_ids linked)) in
    let r = length (distinct (permission_ids resolved)) in
    let n = length db.permissions in
    let lr : l ≡ r = nat_eq-true l r (ground arith) in
    let few : leb n r ≡ false = refused-few n r (roleid == superadmin_role) other h nonempty in
    omega (arith, lr, leb-false n r few)

or_throw-some : {A : Type 0} (o : Option A) (e : Failure) (a : A) → or_throw o e ≡ ok a → o ≡ some a
or_throw-some none e a h = cc
or_throw-some (some b) e a h = ground arith

ok-same : {A : Type 0} {a b : A} → ok a ≡ ok b → a ≡ b
ok-same h = ground arith

-- No role of the table does.
abbrev pub IsBounded : Db → Type 0
IsBounded db = All (IsPartial db.permissions) db.roles

module _ (c : Collation) (set : List Permission → Option (List Permission)) where
  new_role-IsPartial :
      (req : RoleRequest) (id : String) (db : Db) (row : RoleRow)
      → LinksWhatItIsGiven set
      → new_role c set req id db ≡ ok row
      → IsPartial db.permissions row
  unfolding new_role
  new_role-IsPartial req id db row links h =
      let resolved = resolve_perms c req.perms db in
      let (allowed, r1) = >>-eq-ok (assert_not_every_permission id resolved db) _ h in
      let (linked, made, r2) = >>=-eq-ok (or_throw (set resolved) (plain "setPermissions")) _ r1 in
      let given : set resolved ≡ some linked =
        or_throw-some (set resolved) (plain "setPermissions") linked made in
      subst (IsPartial db.permissions) (ok-same r2)
        (checked-IsPartial id req.rolename resolved linked db allowed (links resolved linked given))

  pub role_change-ok :
      (req : RoleRequest) (db : Db) (change : RoleChange)
      → role_change c set req db ≡ ok change
      → (find (λ r. c.matches r.roleid req.roleid) db.roles ≡ some change.row)
        × (change.resolved ≡ resolve_perms c req.perms db)
        × (assert_not_every_permission change.row.roleid change.resolved db ≡ ok tt)
        × (set change.resolved ≡ some change.linked)
  unfolding role_change
  role_change-ok req db change h =
      let resolved = resolve_perms c req.perms db in
      let (row, found, r0) =
        >>=-eq-ok (or_throw (find (λ r. c.matches r.roleid req.roleid) db.roles) no_such_role) _
          h in
      let (allowed, r1) = >>-eq-ok (assert_not_every_permission row.roleid resolved db) _ r0 in
      let (linked, made, r2) = >>=-eq-ok (or_throw (set resolved) (plain "setPermissions")) _ r1 in
      let given : set resolved ≡ some linked =
        or_throw-some (set resolved) (plain "setPermissions") linked made in
      let there : find (λ r. c.matches r.roleid req.roleid) db.roles ≡ some row =
        or_throw-some (find (λ r. c.matches r.roleid req.roleid) db.roles) no_such_role row found in
      let same : record { row = row; resolved = resolved; linked = linked } ≡ change = ok-same r2 in
      (
        there ∙ ap (λ x. some x.row) same,
        ap (λ x. x.resolved) (sym same),
        ap (λ x. assert_not_every_permission x.row.roleid x.resolved db) (sym same) ∙ allowed,
        ap (λ x. set x.resolved) (sym same) ∙ given ∙ ap (λ x. some x.linked) same,
      )

  -- After creating a role, refused or not, no role but Super Admin holds as many permissions as
  -- there are, where that was so before and the database layer links the set of permissions that
  -- it is given.
  pub create_role-IsBounded :
      (req : RoleRequest) (id : String) (db : Db)
      → LinksWhatItIsGiven set
      → IsBounded db
      → IsBounded (create_role c set req id db).1
  unfolding create_role
  create_role-IsBounded req id db links bounded =
      transaction-keeps IsBounded (new_role c set req id)
        (λ d row. (row, record d { roles = row ∷ d.roles })) db bounded
        (λ row made. (new_role-IsPartial req id db row links made, bounded))

  write_role-IsBounded :
      (req : RoleRequest) (db : Db) (change : RoleChange)
      → IsPartial db.permissions (changed_role c req change)
      → IsBounded db
      → IsBounded (write_role c req db change).1
  unfolding write_role revoke_role_holders
  write_role-IsBounded req db change partial bounded =
      let row = changed_role c req change in
      let all_roles =
        All-replaced (IsPartial db.permissions) (λ r. c.matches r.roleid row.roleid) row db.roles
          partial bounded in
      elim (Bool-cases
        (same_role_set (permission_ids change.row.permissions) (permission_ids change.resolved))) [
          | inl same ↦ rw (same) all_roles
          | inr other ↦ rw (other) all_roles
        ]

  -- After changing a role, refused or not, no role but Super Admin holds as many permissions as
  -- there are, where that was so before and the database layer links the set of permissions that
  -- it is given.
  pub update_role-IsBounded :
      (req : RoleRequest) (db : Db)
      → LinksWhatItIsGiven set
      → IsBounded db
      → IsBounded (update_role c set req db).1
  unfolding update_role
  update_role-IsBounded req db links bounded =
      transaction-keeps IsBounded (role_change c set req) (write_role c req) db bounded
        (λ change made.
          let (found, resolved, allowed, given) = role_change-ok req db change made in
          write_role-IsBounded req db change
            (checked-IsPartial change.row.roleid req.rolename change.resolved change.linked db
              allowed (links change.resolved change.linked given))
            bounded)
