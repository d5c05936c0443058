-- ===== src/RolePermission/Laws.antt =====
-- Giving roles to an account: which accounts and which roles.
use edtech_lms_api.Roles.{
  is_unscoped_platform, holds_super_admin, resolve_requested_roles, assert_may_set_roles,
  assert_may_add_roles, assert_may_modify_user, revoke_if_roles_changed, same_role_set,
}
use edtech_lms_api.Prelude.{
  String, Option, List, ◌≡◌, sym, ◌∙◌, ap, arith, inl, inr, All, Bool-cases, false, true, contains,
  ◌⊎◌,
}
use edtech_lms_api.Js.{Value}
use edtech_lms_api.Errors.{Result, ok, >>=-eq-ok, >>-eq-ok, Result-cases, ◌>>=◌, ◌>>◌}
use edtech_lms_api.Claims.{OrgContext}
use edtech_lms_api.Scope.{Scope, scope_of, find_owned_user}
use edtech_lms_api.Staff.{not_sent, AfterChange, organisation_after_change}
use edtech_lms_api.Staff.Laws.{organisation_after_change-ok}
use edtech_lms_api.Roles.Laws.{assert_may_set_roles_iff}
use edtech_lms_api.Store.{Collation, Db, User, RoleRow, role_ids, destroy_tokens}
use edtech_lms_api.Store.Transactions.{transaction-keeps, transaction-ok}
use edtech_lms_api.User.{no_such_user}
use edtech_lms_api.User.Escalation.{MayGive, assert_may_add_roles-bounded}
use edtech_lms_api.User.Placement.{IsPlaced, save_user-IsPlaced, find_owned_user-IsPlaced}
use edtech_lms_api.RolePermission.{bound_roles, write_roles, bind_user_roles}

module _ (c : Collation) where
  -- The checks of a request, once its account and its roles are found.
  abbrev checks : Option OrgContext → Db → User → List RoleRow → Result (User × List RoleRow)
  checks org db user rows = do
    _ ←
        organisation_after_change c org not_sent user.organisationid
          (holds_super_admin user.roleids) (holds_super_admin (role_ids rows)) db
    assert_may_set_roles org (holds_super_admin user.roleids) rows user.organisationid
    assert_may_add_roles c org user.roleids rows db
    ok (user, rows)

  checks-ok :
      (org : Option OrgContext) (db : Db) (user : User) (rows : List RoleRow)
      (found : User × List RoleRow)
      → checks org db user rows ≡ ok found
      → (found ≡ (user, rows))
        × ((a : AfterChange) × (organisation_after_change c org not_sent user.organisationid
                (holds_super_admin user.roleids)
                (holds_super_admin (role_ids rows))
                db
              ≡ ok a))
        × (assert_may_set_roles org (holds_super_admin user.roleids) rows user.organisationid
            ≡ ok tt)
        × (assert_may_add_roles c org user.roleids rows db ≡ ok tt)
  checks-ok org db user rows found h =
      let (after, moved, r5) =
        >>=-eq-ok
          (organisation_after_change c org not_sent user.organisationid
            (holds_super_admin user.roleids) (holds_super_admin (role_ids rows)) db)
          _ h in
      let (set, r6) =
        >>-eq-ok
          (assert_may_set_roles org (holds_super_admin user.roleids) rows user.organisationid) _
          r5 in
      let (add, r7) = >>-eq-ok (assert_may_add_roles c org user.roleids rows db) _ r6 in
      (ground arith, (after, moved), set, add)

  bound_roles-checked :
      (lmsuserid : String) (rolesid : Value) (org : Option OrgContext) (db : Db) (s : Scope)
      (user : User) (rows : List RoleRow)
      → scope_of org ≡ ok s
      → find_owned_user c org lmsuserid no_such_user db ≡ ok user
      → assert_may_modify_user org (holds_super_admin user.roleids) ≡ ok tt
      → resolve_requested_roles c rolesid "rolesid" db ≡ ok rows
      → bound_roles c lmsuserid rolesid org db ≡ checks org db user rows
  unfolding bound_roles
  bound_roles-checked lmsuserid rolesid org db s user rows e1 e2 e3 e4 = rw (e1, e2, e3, e4)

  pub bound_roles-ok :
      (lmsuserid : String) (rolesid : Value) (org : Option OrgContext) (db : Db)
      (found : User × List RoleRow)
      → bound_roles c lmsuserid rolesid org db ≡ ok found
      → (find_owned_user c org lmsuserid no_such_user db ≡ ok found.0)
        × (checks org db found.0 found.1 ≡ ok found)
  unfolding bound_roles
  bound_roles-ok lmsuserid rolesid org db found h = elim (Result-cases (scope_of org)) [
    | inl (e, refused) ↦ absurd (ground arith)
    | inr (s, scoped) ↦ elim (Result-cases (find_owned_user c org lmsuserid no_such_user db)) [
      | inl (e, refused) ↦ absurd (ground arith)
      | inr (user, owned) ↦ elim (Result-cases (resolve_requested_roles c rolesid "rolesid" db)) [
        | inl (e, refused) ↦ absurd (ground arith)
        | inr (rows, resolved) ↦
            elim (Result-cases (assert_may_modify_user org (holds_super_admin user.roleids))) [
              | inl (e, refused) ↦ absurd (ground arith)
              | inr (u, may) ↦
                  let passed : checks org db user rows ≡ ok found =
                    sym (
                      bound_roles-checked lmsuserid rolesid org db s user rows scoped owned may
                        resolved)
                    ∙ h in
                  let same = (checks-ok org db user rows found passed).0 in
                  (
                    owned ∙ ap (λ f. ok f.0) (sym same),
                    ap (λ f. checks org db f.0 f.1) same ∙ passed,
                  )
            ]
      ]
    ]
  ]

  row-IsPlaced :
      (org : Option OrgContext) (db : Db) (user : User) (rows : List RoleRow)
      → checks org db user rows ≡ ok (user, rows)
      → IsPlaced user
      → IsPlaced (record user { roleids = role_ids rows })
  row-IsPlaced org db user rows h p =
      let (same, (after, moved), set, add) = checks-ok org db user rows (user, rows) h in
      let allowed =
        (assert_may_set_roles_iff org (holds_super_admin user.roleids) rows user.organisationid).0
          set in
      let (result, changed, sender, live, kept) =
        organisation_after_change-ok c org not_sent user.organisationid
          (holds_super_admin user.roleids) (holds_super_admin (role_ids rows)) db after moved in
      record {
        platform_account = λ holds. (allowed.0 holds).1;
        has_a_place = λ lacks gone. p.has_a_place (kept (result ∙ gone) lacks).1 gone;
      }

  -- Giving roles leaves every account in its place, whatever the caller asks and whether it is
  -- refused or not, where every account was in its place before: one with Super Admin has no
  -- organisation, and one with neither is disabled.
  pub bind_user_roles-IsPlaced :
      (lmsuserid : String) (rolesid : Value) (org : Option OrgContext) (db : Db)
      → All IsPlaced db.users
      → All IsPlaced (bind_user_roles c lmsuserid rolesid org db).1.users
  unfolding bind_user_roles write_roles revoke_if_roles_changed destroy_tokens
  bind_user_roles-IsPlaced lmsuserid rolesid org db placed =
      transaction-keeps (λ d. All IsPlaced d.users) (bound_roles c lmsuserid rolesid org)
        (write_roles c) db placed
        (λ found made.
          let (owned, passed) = bound_roles-ok lmsuserid rolesid org db found made in
          let placed_row =
            row-IsPlaced org db found.0 found.1 passed
              (find_owned_user-IsPlaced c org lmsuserid db found.0 placed owned) in
          let saved =
            save_user-IsPlaced c (record found.0 { roleids = role_ids found.1 }) db placed_row
              placed in
          elim (Bool-cases (same_role_set found.0.roleids (role_ids found.1))) [
            | inl same ↦ rw (same) saved
            | inr other ↦ rw (other) saved
          ])

  -- An account that a caller gives roles, other than the platform acting as none, was in its
  -- scope, and is given only roles that it held before or that this caller may give: assignable
  -- ones, of whose permissions it holds each, or the wildcard.
  pub bind_user_roles-bounded :
      (lmsuserid : String) (rolesid : Value) (org : Option OrgContext) (db : Db) (id : String)
      (rows : List RoleRow)
      → (bind_user_roles c lmsuserid rolesid org db).0 ≡ ok rows
      → is_unscoped_platform org ≡ false
      → contains (role_ids rows) id ≡ true
      → (old : User) × (find_owned_user c org lmsuserid no_such_user db ≡ ok old)
        × ((contains old.roleids id ≡ true) ⊎ MayGive c org db id)
  unfolding bind_user_roles write_roles
  bind_user_roles-bounded lmsuserid rolesid org db id rows h scoped i =
      let (found, made, same, rest) =
        transaction-ok (bound_roles c lmsuserid rolesid org) (write_roles c) db rows h in
      let (owned, passed) = bound_roles-ok lmsuserid rolesid org db found made in
      let (equal, moved, set, add) = checks-ok org db found.0 found.1 found passed in
      (
        found.0,
        owned,
        elim (Bool-cases (contains found.0.roleids id)) [
          | inl held ↦ inl held
          | inr new ↦ inr (
              assert_may_add_roles-bounded c org db found.0.roleids found.1 id add scoped
                (ap (λ r. contains (role_ids r) id) same ∙ i) new)
        ],
      )
