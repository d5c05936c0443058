-- ===== src/User/Placed.antt =====
-- Every operation on accounts leaves each account in its place.
use mathlib.Core.Path.{subst}
use edtech_lms_api.Prelude.{
  String, true, false, Option, [], ◌≡◌, refl, arith, inl, inr, Bool-cases, All, sym, contains,
}
use edtech_lms_api.Env.{Env}
use edtech_lms_api.Js.{Value}
use edtech_lms_api.Errors.{ok}
use edtech_lms_api.Claims.{OrgContext}
use edtech_lms_api.Staff.Laws.{
  organisation_for_new_account-ok, organisation_after_change-ok, same_text-eq,
}
use edtech_lms_api.Roles.{holds_super_admin}
use edtech_lms_api.Roles.Laws.{assert_may_set_roles_iff}
use edtech_lms_api.Store.{Collation, Db, role_ids, save_user, create_user_row, destroy_tokens}
use edtech_lms_api.Store.Transactions.{transaction-keeps}
use edtech_lms_api.User.{
  UserRequest, NewAccount, Change, new_account, new_row, create_user, user_change, changed_row,
  end_sessions, update_user, disable_target, disable_user_by_id,
}
use edtech_lms_api.User.Checks.{new_account-ok, user_change-ok}
use edtech_lms_api.User.Placement.{IsPlaced, find_owned_user-IsPlaced, save_user-IsPlaced}

module _ (c : Collation) (env : Env) where
  new_account-IsPlaced :
      (req : UserRequest) (roles : Value) (org : Option OrgContext) (db : Db) (account : NewAccount)
      (currentuser : Option String) (id : String)
      → new_account c env req roles org db ≡ ok account
      → IsPlaced (new_row c env req account currentuser id)
  unfolding new_row
  new_account-IsPlaced req roles org db account currentuser id h =
      let (placed, set, add) = new_account-ok c env req roles org db account h in
      let allowed =
        (assert_may_set_roles_iff org false account.rows account.organisationid).0 set in
      record {
        platform_account = λ holds. (allowed.0 holds).1;
        has_a_place = λ lacks none_left. absurd (
            ground (
              arith,
              organisation_for_new_account-ok c org req.requested
                  (holds_super_admin (role_ids account.rows)) db account.organisationid placed,
            ));
      }

  user_change-IsPlaced :
      (req : UserRequest) (roles : Value) (currentuser : Option String) (org : Option OrgContext)
      (db : Db) (change : Change)
      → user_change c env req roles currentuser org db ≡ ok change
      → IsPlaced change.user
      → IsPlaced (changed_row c env req change currentuser)
  unfolding changed_row
  user_change-IsPlaced req roles currentuser org db change h p =
      let (found, resolved, moved, set, add) =
        user_change-ok c env req roles currentuser org db change h in
      let (result, changed, sender, live, kept) =
        organisation_after_change-ok c org req.requested change.user.organisationid
          (holds_super_admin change.user.roleids) (holds_super_admin (role_ids change.rows)) db
          change.after moved in
      let allowed =
        (assert_may_set_roles_iff org (holds_super_admin change.user.roleids) change.rows
            change.after.organisationid).0
          set in
      let same : change.after.changed ≡ false
          → change.user.organisationid ≡ change.after.organisationid =
        λ n.
          sym
            (same_text-eq change.after.organisationid change.user.organisationid (ground arith)) in
      elim (Bool-cases change.after.changed) [
        | inl moved_on ↦ record {
          platform_account = λ holds. ground (arith, allowed.0 holds);
          has_a_place = λ lacks gone. ground (arith, kept, lacks);
        }
        | inr stays ↦ record {
          platform_account = λ holds. ground (arith, allowed.0 holds, same stays);
          has_a_place = λ lacks gone.
              p.has_a_place (kept (ground (arith, same stays)) lacks).1 (ground arith);
        }
      ]

  end_sessions-users : (change : Change) (db : Db) → db.users ≡ (end_sessions c env change db).users
  unfolding end_sessions destroy_tokens
  end_sessions-users change db = ground arith

  -- Creating an account leaves every account in its place, whatever the caller asks and whether
  -- it is refused or not, where every account was in its place before: one with Super Admin has
  -- no organisation, and one with neither is disabled.
  pub create_user-IsPlaced :
      (req : UserRequest) (roles : Value) (currentuser : Option String) (org : Option OrgContext)
      (id : String) (db : Db)
      → All IsPlaced db.users
      → All IsPlaced (create_user c env req roles currentuser org id db).1.users
  unfolding create_user create_user_row
  create_user-IsPlaced req roles currentuser org id db placed =
      transaction-keeps (λ d. All IsPlaced d.users) (new_account c env req roles org)
        (λ d account.
          let user = new_row c env req account currentuser id in (user, create_user_row c user d))
        db placed
        (λ account made.
          (new_account-IsPlaced req roles org db account currentuser id made, placed))

  -- Changing an account leaves every account in its place, whatever the caller asks and whether
  -- it is refused or not, where every account was in its place before: one with Super Admin has
  -- no organisation, and one with neither is disabled.
  pub update_user-IsPlaced :
      (req : UserRequest) (roles : Value) (currentuser : Option String) (org : Option OrgContext)
      (db : Db)
      → All IsPlaced db.users
      → All IsPlaced (update_user c env req roles currentuser org db).1.users
  unfolding update_user
  update_user-IsPlaced req roles currentuser org db placed =
      transaction-keeps (λ d. All IsPlaced d.users) (user_change c env req roles currentuser org)
        (λ d change.
          let user = changed_row c env req change currentuser in
          (user, end_sessions c env change (save_user c user d)))
        db placed
        (λ change made.
          let row = changed_row c env req change currentuser in
          subst (λ us. All IsPlaced us) (end_sessions-users change (save_user c row db))
            (save_user-IsPlaced c row db
              (user_change-IsPlaced req roles currentuser org db change made (
                find_owned_user-IsPlaced c org req.lmsuserid db change.user placed
                  (user_change-ok c env req roles currentuser org db change made).0))
              placed))

  -- Disabling an account leaves every account in its place, whether it is refused or not, where
  -- every account was in its place before: one with Super Admin has no organisation, and one with
  -- neither is disabled.
  pub disable_user_by_id-IsPlaced :
      (lmsuserid : String) (org : Option OrgContext) (db : Db)
      → All IsPlaced db.users
      → All IsPlaced (disable_user_by_id c env lmsuserid org db).1.users
  unfolding disable_user_by_id destroy_tokens contains
  disable_user_by_id-IsPlaced lmsuserid org db placed =
      transaction-keeps (λ d. All IsPlaced d.users) (disable_target c env lmsuserid org)
        (λ d user. (
          tt,
          destroy_tokens c user.lmsuserid
              (save_user c (record user { isdisabled = true; roleids = [] }) d),
        ))
        db placed
        (λ user made.
          save_user-IsPlaced c (record user { isdisabled = true; roleids = [] }) db
            (record { platform_account = λ h. absurd (ground arith); has_a_place = λ a b. refl })
            placed)
