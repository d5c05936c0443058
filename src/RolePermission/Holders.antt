-- ===== src/RolePermission/Holders.antt =====
-- A role whose permissions change ends the sessions of the accounts that hold it.
use edtech_lms_api.Prelude.{
  String, Bool, true, false, Option, some, List, [], ◌∷◌, ◌≡◌, refl, sym, ◌∙◌, ap, arith, inl, inr,
  not, filter, find, any, map, if◌then◌else◌, Bool-cases, IsIn, find-filter-none,
}
use edtech_lms_api.Errors.{ok}
use edtech_lms_api.Roles.{same_role_set, revoke_role_holders}
use edtech_lms_api.Session.{OrganisationClaims, session_is_current, is_session_token}
use edtech_lms_api.Session.Rows.{session_of_no_lookup, token_of_user}
use edtech_lms_api.Store.{Collation, Db, Permission, RoleRow, User}
use edtech_lms_api.Store.Transactions.{transaction-ok}
use edtech_lms_api.RolePermission.Edit.{
  RoleRequest, RoleChange, permission_ids, resolve_perms, role_change, changed_role, write_role,
  update_role,
}
use edtech_lms_api.RolePermission.Wildcard.{role_change-ok}

module _ (c : Collation) (set : List Permission → Option (List Permission)) where
  any-holder :
      (test : User → Bool) (key : String) (u : User) (us : List User)
      → IsIn u us
      → test u ≡ true
      → c.matches key u.lmsuserid ≡ true
      → any (c.matches key) (map (λ v. v.lmsuserid) (filter test us)) ≡ true
  any-holder test key u [] i t m = absurd i
  any-holder test key u (v ∷ vs) (inl e) t m =
      ground (arith, ap test e, ap (λ w. c.matches key w.lmsuserid) e)
  any-holder test key u (v ∷ vs) (inr i) t m = elim (Bool-cases (test v)) [
    | inl s ↦ ground (arith, any-holder test key u vs i t m)
    | inr s ↦ ground (arith, any-holder test key u vs i t m)
  ]

  session-revoke_role_holders :
      (roleid jti : String) (claims : OrganisationClaims) (db : Db) (u : User)
      → IsIn u db.users
      → any (λ r. c.matches r roleid) u.roleids ≡ true
      → session_is_current c jti u.lmsuserid claims (revoke_role_holders c roleid db).1 ≡ false
  unfolding revoke_role_holders
  session-revoke_role_holders roleid jti claims db u stored holds =
      let test : User → Bool = λ v. any (λ r. c.matches r roleid) v.roleids in
      let holders = map (λ v. v.lmsuserid) (filter test db.users) in
      session_of_no_lookup c jti u.lmsuserid claims (revoke_role_holders c roleid db).1 (
        find-filter-none (λ t. not (any (c.matches t.lmsuserid) holders))
          (is_session_token c jti u.lmsuserid) db.tokens
          (λ t s. ap not (
            any-holder test t.lmsuserid u db.users stored holds
              (token_of_user c jti u.lmsuserid t s))))

  revoked :
      (req : RoleRequest) (db : Db) (change : RoleChange)
      → same_role_set (permission_ids change.row.permissions) (permission_ids change.resolved)
        ≡ false
      → (write_role c req db change).1
        ≡ (revoke_role_holders c change.row.roleid (record db {
          roles =
              map
                (λ r. if c.matches r.roleid change.row.roleid then changed_role c req change else r)
                db.roles;
        })).1
  unfolding write_role
  revoked req db change differs = rw (differs) refl

  -- An update of a role that succeeds and changes its set of permissions leaves no session to any
  -- account that holds the role.
  pub update_role-ends_sessions :
      (req : RoleRequest) (db : Db) (old row : RoleRow) (u : User) (jti : String)
      (claims : OrganisationClaims)
      → (update_role c set req db).0 ≡ ok row
      → find (λ r. c.matches r.roleid req.roleid) db.roles ≡ some old
      → same_role_set
          (permission_ids old.permissions)
          (permission_ids (resolve_perms c req.perms db))
        ≡ false
      → IsIn u db.users
      → any (λ r. c.matches r old.roleid) u.roleids ≡ true
      → session_is_current c jti u.lmsuserid claims (update_role c set req db).1 ≡ false
  unfolding update_role write_role
  update_role-ends_sessions req db old row u jti claims h found other stored holds =
      let (change, made, same, rest) =
        transaction-ok (role_change c set req) (write_role c req) db row h in
      let (there, resolved, allowed, given) = role_change-ok c set req db change made in
      let e : old ≡ change.row = ground arith in
      let saved = record db {
        roles =
            map (λ r. if c.matches r.roleid change.row.roleid then changed_role c req change else r)
              db.roles;
      } in
      let differs : same_role_set (permission_ids change.row.permissions)
            (permission_ids change.resolved)
          ≡ false =
        ap (λ x. same_role_set (permission_ids x.permissions) (permission_ids change.resolved))
          (sym e)
        ∙ ap (λ x. same_role_set (permission_ids old.permissions) (permission_ids x)) resolved
        ∙ other in
      ap (session_is_current c jti u.lmsuserid claims) (rest ∙ revoked req db change differs)
      ∙ session-revoke_role_holders change.row.roleid jti claims saved u stored
          (ap (λ x. any (λ r. c.matches r x.roleid) u.roleids) (sym e) ∙ holds)
