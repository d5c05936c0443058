-- ===== src/Roles/Laws.antt =====
-- Who may set, add and take away roles.
use edtech_lms_api.Prelude.{
  String, Bool, true, false, Option, none, some, List, [], ◌∷◌, ◌==◌, ◌&&◌, ◌≡◌, refl, ◌↔◌, ◌⊎◌,
  any, all, map, filter, find, contains, arith, eq_true, Bool-cases, Option-cases, inl, inr, IsIn,
  IsIn-filter, find_sound, ◌∙◌, ap,
}
use edtech_lms_api.Enums.{superadmin_permission}
use edtech_lms_api.Js.{Value}
use edtech_lms_api.Errors.{ok}
use edtech_lms_api.Claims.{OrgContext}
use edtech_lms_api.Permissions.{name_of}
use edtech_lms_api.Store.{Collation, Db, RoleRow, role_ids}
use edtech_lms_api.Roles.{
  assert_may_set_roles, caller_is_platform, caller_permissions, holds_super_admin,
  resolve_requested_roles, rows_of, requested_ids, roles_in, roles_caller_may_add, is_eligible,
  is_unscoped_platform, holds_all_of,
}

-- Roles may be set exactly when a set with Super Admin is given by a platform user to an account
-- with no organisation, and when only a platform user takes Super Admin away.
pub assert_may_set_roles_iff :
    (caller : Option OrgContext) (had : Bool) (rows : List RoleRow) (target : Option String)
    → (assert_may_set_roles caller had rows target ≡ ok tt) ↔ (
        (holds_super_admin (role_ids rows) ≡ true
          → (caller_is_platform caller ≡ true) × (target ≡ none))
        × (had ≡ true
            → holds_super_admin (role_ids rows) ≡ false
            → caller_is_platform caller ≡ true))
unfolding assert_may_set_roles
assert_may_set_roles_iff caller had rows none = ground arith
assert_may_set_roles_iff caller had rows (some o) = ground arith

-- The rows that ids resolve to are spelled as the ids are, in their order.
rows_of-ids :
    (found : List RoleRow) (ids : List String) (rows : List RoleRow)
    → rows_of found ids ≡ some rows
    → role_ids rows ≡ ids
unfolding rows_of
rows_of-ids found [] rows h = ground arith
rows_of-ids found (id ∷ ids) rows h = elim (Option-cases (find (λ r. r.roleid == id) found)) [
  | inl n ↦ absurd (ground arith)
  | inr (row, e) ↦ elim (Option-cases (rows_of found ids)) [
    | inl n ↦ absurd (ground arith)
    | inr (rest, f) ↦
        let same : row.roleid ≡ id =
          eq_true row.roleid id (find_sound (λ r. r.roleid == id) found e) in
        ground (arith, rows_of-ids found ids rest f, same)
  ]
]

-- Requested roles resolve only where the request is an array of texts, and to rows that are
-- spelled exactly as the request spells them.
pub resolve_requested_roles-ids :
    (c : Collation) (requested : Value) (name : String) (db : Db) (rows : List RoleRow)
    → resolve_requested_roles c requested name db ≡ ok rows
    → requested_ids requested ≡ some (role_ids rows)
unfolding resolve_requested_roles
resolve_requested_roles-ids c requested name db rows h =
    elim (Option-cases (requested_ids requested)) [
      | inl n ↦ absurd (ground arith)
      | inr (ids, e) ↦ elim (Option-cases (rows_of (roles_in c ids db) ids)) [
        | inl n ↦ absurd (ground arith)
        | inr (found, f) ↦ ground (arith, rows_of-ids (roles_in c ids db) ids found f)
      ]
    ]

-- An id in the ids of the rows that pass a test comes from a row that passes it.
row_of_id :
    (p : RoleRow → Bool) (rows : List RoleRow) (id : String)
    → contains (role_ids (filter p rows)) id ≡ true
    → (r : RoleRow) × (r.roleid ≡ id) × (p r ≡ true) × IsIn r rows
unfolding contains
row_of_id p [] id h = absurd (ground arith)
row_of_id p (r ∷ rows) id h = elim (Bool-cases (p r && r.roleid == id)) [
  | inl b ↦ (r, eq_true r.roleid id (ground arith), ground arith, inl refl)
  | inr n ↦
      let (q, same, passed, stored) = row_of_id p rows id (ground arith) in
      (q, same, passed, inr stored)
]

-- What a caller may add, other than the platform acting as none, gives nothing that it does not
-- hold: an assignable role, of whose stored row the caller holds every permission, or the
-- wildcard.
pub roles_caller_may_add-bounded :
    (c : Collation) (caller : Option OrgContext) (candidates : List RoleRow) (db : Db) (id : String)
    → is_unscoped_platform caller ≡ false
    → contains (roles_caller_may_add c caller candidates db) id ≡ true
    → (is_eligible id ≡ true)
      × ((row : RoleRow) × (row.roleid ≡ id)
          × IsIn row db.roles
          × ((contains (caller_permissions caller) superadmin_permission ≡ true)
              ⊎ (all (contains (caller_permissions caller)) (map name_of row.permissions) ≡ true)))
unfolding roles_caller_may_add holds_all_of
roles_caller_may_add-bounded c caller candidates db id scoped h =
    let eligible = filter (λ r. is_eligible r.roleid) candidates in
    let (row, same, passed, stored) =
      row_of_id (λ row. contains (role_ids eligible) row.roleid && holds_all_of caller row)
        (roles_in c (role_ids eligible) db) id (ground arith) in
    let (cand, named, good, listed) =
      row_of_id (λ r. is_eligible r.roleid) candidates row.roleid (ground arith) in
    (
      ground (arith, ap is_eligible (named ∙ same)),
      (
        row,
        same,
        (IsIn-filter (λ r. any (c.matches r.roleid) (role_ids eligible)) row db.roles stored).0,
        ground arith,
      ),
    )
