-- ===== src/User/Escalation.antt =====
-- No operation on accounts lets a caller give a role with more access than its own.
use edtech_lms_api.Prelude.{
  String, true, false, Option, List, [], ◌∷◌, ◌≡◌, refl, sym, ◌∙◌, ap, arith, inl, inr, ◌⊎◌, ◌≢◌,
  Bool-cases, contains, any, all, map, filter, not, ◌&&◌, ◌||◌, IsIn, ◌==◌, eq_true,
}
use edtech_lms_api.Enums.{superadmin_permission}
use edtech_lms_api.Env.{Env}
use edtech_lms_api.Js.{Value}
use edtech_lms_api.Errors.{ok}
use edtech_lms_api.Claims.{OrgContext}
use edtech_lms_api.Permissions.{name_of}
use edtech_lms_api.Roles.{
  assert_may_add_roles, is_unscoped_platform, roles_caller_may_add, is_eligible, caller_permissions,
  same_role_set, same_role_set,
}
use edtech_lms_api.Roles.Laws.{roles_caller_may_add-bounded}
use edtech_lms_api.Scope.{find_owned_user}
use edtech_lms_api.Session.{OrganisationClaims, session_is_current}
use edtech_lms_api.Session.Rows.{session-destroy_tokens}
use edtech_lms_api.Store.{
  Collation, Db, User, RoleRow, role_ids, save_user, create_user_row, destroy_tokens,
}
use edtech_lms_api.User.{
  UserRequest, Change, user_change, new_account, update_user, create_user, changed_row, new_row,
  end_sessions, no_such_user,
}
use edtech_lms_api.User.Checks.{user_change-ok, new_account-ok}
use edtech_lms_api.Store.Transactions.{transaction-ok}

module _ (c : Collation) (caller : Option OrgContext) (db : Db) where
  -- A role that is added and that no test refuses is one the caller may add.
  kept_by :
      (current may : List String) (rows : List RoleRow) (id : String)
      → any (λ r. not (contains may r.roleid)) (filter (λ r. not (contains current r.roleid)) rows)
        ≡ false
      → contains (role_ids rows) id ≡ true
      → contains current id ≡ false
      → contains may id ≡ true
  unfolding contains
  kept_by current may [] id h i n = absurd (ground arith)
  kept_by current may (r ∷ rs) id h i n = elim (Bool-cases (r.roleid == id)) [
    | inl s ↦
        let e : r.roleid ≡ id = eq_true r.roleid id s in
        ground (arith, ap (contains may) e, ap (contains current) e)
    | inr s ↦ elim (Bool-cases (contains current r.roleid)) [
      | inl held ↦ kept_by current may rs id (ground arith) (ground arith) n
      | inr new ↦ kept_by current may rs id (ground arith) (ground arith) n
    ]
  ]

  -- What a caller may give: a role that it may assign, whose permissions it holds.
  abbrev pub MayGive : String → Type 0
  MayGive id =
      (is_eligible id ≡ true)
      × ((row : RoleRow) × (row.roleid ≡ id)
          × IsIn row db.roles
          × ((contains (caller_permissions caller) superadmin_permission ≡ true)
              ⊎ (all (contains (caller_permissions caller)) (map name_of row.permissions) ≡ true)))

  pub assert_may_add_roles-bounded :
      (current : List String) (rows : List RoleRow) (id : String)
      → assert_may_add_roles c caller current rows db ≡ ok tt
      → is_unscoped_platform caller ≡ false
      → contains (role_ids rows) id ≡ true
      → contains current id ≡ false
      → MayGive id
  unfolding assert_may_add_roles
  assert_may_add_roles-bounded current rows id h scoped i n =
      let added = filter (λ r. not (contains current r.roleid)) rows in
      roles_caller_may_add-bounded c caller added db id scoped
        (kept_by current (roles_caller_may_add c caller added db) rows id (ground arith) i n)

  -- An account that is created by a caller, other than the platform acting as none, has only
  -- roles that this caller may give: assignable ones, of whose permissions it holds each, or the
  -- wildcard.
  pub create_user-bounded :
      (env : Env) (req : UserRequest) (roles : Value) (currentuser : Option String)
      (fresh id : String) (user : User)
      → (create_user c env req roles currentuser caller fresh db).0 ≡ ok user
      → is_unscoped_platform caller ≡ false
      → contains user.roleids id ≡ true
      → MayGive id
  unfolding create_user new_row contains
  create_user-bounded env req roles currentuser fresh id user h scoped i =
      let (account, made, same, rest) =
        transaction-ok (new_account c env req roles caller)
          (λ d a. let u = new_row c env req a currentuser fresh in (u, create_user_row c u d)) db
          user h in
      let (placed, set, add) = new_account-ok c env req roles caller db account made in
      assert_may_add_roles-bounded [] account.rows id add scoped
        (ap (λ u. contains u.roleids id) same ∙ i) refl

  -- An account that a caller changes, other than the platform acting as none, was in its scope,
  -- and has only roles that it held before or that this caller may give: assignable ones, of
  -- whose permissions it holds each, or the wildcard.
  pub update_user-bounded :
      (env : Env) (req : UserRequest) (roles : Value) (currentuser : Option String) (id : String)
      (user : User)
      → (update_user c env req roles currentuser caller db).0 ≡ ok user
      → is_unscoped_platform caller ≡ false
      → contains user.roleids id ≡ true
      → (old : User) × (find_owned_user c caller req.lmsuserid no_such_user db ≡ ok old)
        × ((contains old.roleids id ≡ true) ⊎ MayGive id)
  unfolding update_user changed_row
  update_user-bounded env req roles currentuser id user h scoped i =
      let (change, made, same, rest) =
        transaction-ok (user_change c env req roles currentuser caller)
          (λ d a.
            let u = changed_row c env req a currentuser in
            (u, end_sessions c env a (save_user c u d)))
          db user h in
      let (found, resolved, moved, set, add) =
        user_change-ok c env req roles currentuser caller db change made in
      (
        change.user,
        found,
        elim (Bool-cases (contains change.user.roleids id)) [
          | inl held ↦ inl held
          | inr new ↦ inr (
              assert_may_add_roles-bounded change.user.roleids change.rows id add scoped
                (ap (λ u. contains u.roleids id) same ∙ i) new)
        ],
      )

  end_sessions-destroyed :
      (env : Env) (change : Change) (d : Db)
      → (not (same_role_set change.user.roleids (role_ids change.rows)) || change.after.changed)
        ≡ true
      → end_sessions c env change d ≡ destroy_tokens c change.user.lmsuserid d
  unfolding end_sessions
  end_sessions-destroyed env change d h = rw (h) refl

  changed-ends :
      (env : Env) (req : UserRequest) (currentuser : Option String) (change : Change)
      (old user : User)
      → old ≡ change.user
      → changed_row c env req change currentuser ≡ user
      → (same_role_set old.roleids user.roleids ≡ false)
        ⊎ (old.organisationid ≢ user.organisationid)
      → (not (same_role_set change.user.roleids (role_ids change.rows)) || change.after.changed)
        ≡ true
  unfolding changed_row
  changed-ends env req currentuser change old user e same (inl roles) =
      let set : same_role_set change.user.roleids (role_ids change.rows) ≡ false =
        ap (λ u. same_role_set u.roleids (role_ids change.rows)) (sym e)
        ∙ ap (λ u. same_role_set old.roleids u.roleids) same
        ∙ roles in
      ground arith
  changed-ends env req currentuser change old user e same (inr apart) =
      elim (Bool-cases change.after.changed) [
        | inl moved ↦ ground arith
        | inr stays ↦
            let org : (changed_row c env req change currentuser).organisationid
                ≡ change.user.organisationid =
              ground arith in
            absurd
              (apart (ap (λ u. u.organisationid) e ∙ sym org ∙ ap (λ u. u.organisationid) same))
      ]

  -- An account that an update gives another set of roles or another organisation has no session
  -- left.
  pub update_user-ends_sessions :
      (env : Env) (req : UserRequest) (roles : Value) (currentuser : Option String)
      (user old : User) (jti : String) (claims : OrganisationClaims)
      → (update_user c env req roles currentuser caller db).0 ≡ ok user
      → find_owned_user c caller req.lmsuserid no_such_user db ≡ ok old
      → (same_role_set old.roleids user.roleids ≡ false)
        ⊎ (old.organisationid ≢ user.organisationid)
      → session_is_current c jti old.lmsuserid claims
          (update_user c env req roles currentuser caller db).1
        ≡ false
  unfolding update_user
  update_user-ends_sessions env req roles currentuser user old jti claims h owned changed =
      let (change, made, same, rest) =
        transaction-ok (user_change c env req roles currentuser caller)
          (λ d a.
            let u = changed_row c env req a currentuser in
            (u, end_sessions c env a (save_user c u d)))
          db user h in
      let owner : find_owned_user c caller req.lmsuserid no_such_user db ≡ ok change.user =
        (user_change-ok c env req roles currentuser caller db change made).0 in
      let e : old ≡ change.user = ground arith in
      let after = save_user c (changed_row c env req change currentuser) db in
      let ended =
        end_sessions-destroyed env change after
          (changed-ends env req currentuser change old user e same changed) in
      let self : c.matches old.lmsuserid change.user.lmsuserid ≡ true =
        ap (λ u. c.matches old.lmsuserid u.lmsuserid) (sym e) ∙ c.matches_refl old.lmsuserid in
      ap (session_is_current c jti old.lmsuserid claims) (rest ∙ ended)
      ∙ session-destroy_tokens c jti old.lmsuserid change.user.lmsuserid claims after
      ∙ ap (λ b. not b && session_is_current c jti old.lmsuserid claims after) self
