-- ===== src/User/Checks.antt =====
-- What a create or an update that is not refused has passed.
use edtech_lms_api.Prelude.{
  String, false, Option, none, some, List, [], ◌≡◌, not, arith, inl, inr, ◌∙◌, sym, ap, ◌==◌,
}
use edtech_lms_api.Env.{Env}
use edtech_lms_api.Js.{Value}
use edtech_lms_api.Errors.{Result, ok, >>=-eq-ok, >>-eq-ok, Result-cases, ◌>>=◌, ◌>>◌}
use edtech_lms_api.Claims.{OrgContext}
use edtech_lms_api.Scope.{Scope, scope_of, find_owned_user}
use edtech_lms_api.Staff.{organisation_for_new_account, organisation_after_change}
use edtech_lms_api.Roles.{
  holds_super_admin, resolve_requested_roles, assert_may_set_roles, assert_may_add_roles,
  assert_may_modify_user, assert_may_change_sign_in,
}
use edtech_lms_api.Auth.{held_roles}
use edtech_lms_api.Store.{Collation, Db, User, RoleRow, role_ids}
use edtech_lms_api.User.{
  UserRequest, NewAccount, Change, new_account, user_change, no_such_user, is_text,
}

module _ (c : Collation) (env : Env) where
  pub new_account-ok :
      (req : UserRequest) (roles : Value) (org : Option OrgContext) (db : Db) (account : NewAccount)
      → new_account c env req roles org db ≡ ok account
      → (organisation_for_new_account c org req.requested
            (holds_super_admin (role_ids account.rows))
            db
          ≡ ok account.organisationid)
        × (assert_may_set_roles org false account.rows account.organisationid ≡ ok tt)
        × (assert_may_add_roles c org [] account.rows db ≡ ok tt)
  unfolding new_account
  new_account-ok req roles org db account h =
      let (s, scoped, r1) = >>=-eq-ok (scope_of org) _ h in
      let (rows, resolved, r2) =
        >>=-eq-ok (resolve_requested_roles c roles "lmsuserroles" db) _ r1 in
      let (o, placed, r3) =
        >>=-eq-ok
          (organisation_for_new_account c org req.requested (holds_super_admin (role_ids rows)) db)
          _ r2 in
      let (set, r4) = >>-eq-ok (assert_may_set_roles org false rows o) _ r3 in
      let (add, r5) = >>-eq-ok (assert_may_add_roles c org [] rows db) _ r4 in ground arith

  -- The checks of an update, once its account and its roles are found.
  abbrev checks :
      UserRequest → Option String → Option OrgContext → Db → User → List RoleRow → Result Change
  checks req currentuser org db user rows = do
    after ←
        organisation_after_change c org req.requested user.organisationid
          (holds_super_admin user.roleids) (holds_super_admin (role_ids rows)) db
    assert_may_set_roles org (holds_super_admin user.roleids) rows after.organisationid
    assert_may_add_roles c org user.roleids rows db
    assert_may_change_sign_in c org (held_roles user db)
        (elim currentuser [ none ↦ false | some id ↦ id == user.lmsuserid ])
        (not (req.lmsusername == user.lmsusername)) (is_text req.lmsuserpasswordhash) db
    ok (record {
      user = user;
      rows = rows;
      after = after;
      changes_password = is_text req.lmsuserpasswordhash;
    })

  checks-ok :
      (req : UserRequest) (currentuser : Option String) (org : Option OrgContext) (db : Db)
      (user : User) (rows : List RoleRow) (change : Change)
      → checks req currentuser org db user rows ≡ ok change
      → (user ≡ change.user)
        × (rows ≡ change.rows)
        × (organisation_after_change c org req.requested change.user.organisationid
              (holds_super_admin change.user.roleids)
              (holds_super_admin (role_ids change.rows))
              db
            ≡ ok change.after)
        × (assert_may_set_roles org
              (holds_super_admin change.user.roleids)
              change.rows
              change.after.organisationid
            ≡ ok tt)
        × (assert_may_add_roles c org change.user.roleids change.rows db ≡ ok tt)
  checks-ok req currentuser org db user rows change h =
      let (after, moved, r5) =
        >>=-eq-ok
          (organisation_after_change c org req.requested user.organisationid
            (holds_super_admin user.roleids) (holds_super_admin (role_ids rows)) db)
          _ h in
      let (set, r6) =
        >>-eq-ok
          (assert_may_set_roles org (holds_super_admin user.roleids) rows after.organisationid) _
          r5 in
      let (add, r7) = >>-eq-ok (assert_may_add_roles c org user.roleids rows db) _ r6 in
      ground arith

  user_change-checked :
      (req : UserRequest) (roles : Value) (currentuser : Option String) (org : Option OrgContext)
      (db : Db) (s : Scope) (user : User) (rows : List RoleRow)
      → scope_of org ≡ ok s
      → find_owned_user c org req.lmsuserid no_such_user db ≡ ok user
      → assert_may_modify_user org (holds_super_admin user.roleids) ≡ ok tt
      → resolve_requested_roles c roles "lmsuserroles" db ≡ ok rows
      → user_change c env req roles currentuser org db ≡ checks req currentuser org db user rows
  unfolding user_change
  user_change-checked req roles currentuser org db s user rows e1 e2 e3 e4 = rw (e1, e2, e3, e4)

  pub user_change-ok :
      (req : UserRequest) (roles : Value) (currentuser : Option String) (org : Option OrgContext)
      (db : Db) (change : Change)
      → user_change c env req roles currentuser org db ≡ ok change
      → (find_owned_user c org req.lmsuserid no_such_user db ≡ ok change.user)
        × (resolve_requested_roles c roles "lmsuserroles" db ≡ ok change.rows)
        × (organisation_after_change c org req.requested change.user.organisationid
              (holds_super_admin change.user.roleids)
              (holds_super_admin (role_ids change.rows))
              db
            ≡ ok change.after)
        × (assert_may_set_roles org
              (holds_super_admin change.user.roleids)
              change.rows
              change.after.organisationid
            ≡ ok tt)
        × (assert_may_add_roles c org change.user.roleids change.rows db ≡ ok tt)
  unfolding user_change
  user_change-ok req roles currentuser org db change h = elim (Result-cases (scope_of org)) [
    | inl (e, refused) ↦ absurd (ground arith)
    | inr (s, scoped) ↦ elim (Result-cases (find_owned_user c org req.lmsuserid no_such_user db)) [
      | inl (e, refused) ↦ absurd (ground arith)
      | inr (user, found) ↦
          elim (Result-cases (resolve_requested_roles c roles "lmsuserroles" db)) [
            | inl (e, refused) ↦ absurd (ground arith)
            | inr (rows, resolved) ↦
                elim (Result-cases (assert_may_modify_user org (holds_super_admin user.roleids))) [
                  | inl (e, refused) ↦ absurd (ground arith)
                  | inr (u, may) ↦
                      let (a, b, x, y, z) = checks-ok req currentuser org db user rows change (
                        sym (
                          user_change-checked req roles currentuser org db s user rows scoped found
                            may resolved)
                        ∙ h) in
                      (found ∙ ap ok a, resolved ∙ ap ok b, x, y, z)
                ]
          ]
    ]
  ]
