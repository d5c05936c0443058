-- ===== src/RolePermission/Sessions.antt =====
-- Giving roles to an account, and its sessions.
use edtech_lms_api.Prelude.{String, ◌≡◌, refl, sym, ap, ◌∙◌, true, false, not, ◌&&◌, Option, List}
use edtech_lms_api.Js.{Value}
use edtech_lms_api.Errors.{ok, ok-injective}
use edtech_lms_api.Claims.{OrgContext}
use edtech_lms_api.Scope.{find_owned_user}
use edtech_lms_api.Session.{OrganisationClaims, session_is_current}
use edtech_lms_api.Session.Rows.{session-destroy_tokens}
use edtech_lms_api.Roles.{same_role_set, revoke_if_roles_changed}
use edtech_lms_api.Store.{Collation, RoleRow, role_ids, User, Db, save_user, destroy_tokens}
use edtech_lms_api.Store.Transactions.{transaction-ok}
use edtech_lms_api.User.{no_such_user}
use edtech_lms_api.RolePermission.{bound_roles, write_roles, bind_user_roles}
use edtech_lms_api.RolePermission.Laws.{bound_roles-ok}

module _ (c : Collation) where
  written-destroyed :
      (user : User) (rows : List RoleRow) (db : Db)
      → same_role_set user.roleids (role_ids rows) ≡ false
      → (write_roles c db (user, rows)).1
        ≡ destroy_tokens c user.lmsuserid (save_user c (record user { roleids = role_ids rows }) db)
  unfolding write_roles revoke_if_roles_changed
  written-destroyed user rows db h = rw (h) refl

  -- An account that a request, not refused, gives another set of roles has no session left, whatever
  -- the token and its claims.
  pub bind_user_roles-ends_sessions :
      (lmsuserid : String) (rolesid : Value) (org : Option OrgContext) (db : Db)
      (rows : List RoleRow) (old : User) (jti : String) (claims : OrganisationClaims)
      → (bind_user_roles c lmsuserid rolesid org db).0 ≡ ok rows
      → find_owned_user c org lmsuserid no_such_user db ≡ ok old
      → same_role_set old.roleids (role_ids rows) ≡ false
      → session_is_current c jti old.lmsuserid claims (bind_user_roles c lmsuserid rolesid org db).1
        ≡ false
  unfolding bind_user_roles write_roles
  bind_user_roles-ends_sessions lmsuserid rolesid org db rows old jti claims h owned other =
      let (found, made, same, rest) =
        transaction-ok (bound_roles c lmsuserid rolesid org) (write_roles c) db rows h in
      let e : old ≡ found.0 =
        ok-injective (sym owned ∙ (bound_roles-ok c lmsuserid rolesid org db found made).0) in
      let changed : same_role_set found.0.roleids (role_ids found.1) ≡ false =
        ap (λ u. same_role_set u.roleids (role_ids found.1)) (sym e)
        ∙ ap (λ r. same_role_set old.roleids (role_ids r)) same
        ∙ other in
      let after = save_user c (record found.0 { roleids = role_ids found.1 }) db in
      let self : c.matches old.lmsuserid found.0.lmsuserid ≡ true =
        ap (λ u. c.matches old.lmsuserid u.lmsuserid) (sym e) ∙ c.matches_refl old.lmsuserid in
      ap (session_is_current c jti old.lmsuserid claims)
        (rest ∙ written-destroyed found.0 found.1 db changed)
      ∙ session-destroy_tokens c jti old.lmsuserid found.0.lmsuserid claims after
      ∙ ap (λ b. not b && session_is_current c jti old.lmsuserid claims after) self
