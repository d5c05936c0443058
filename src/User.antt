-- ===== src/User.antt =====
-- src/business/user.business.ts: creating, changing and disabling staff accounts. Each runs in one
-- transaction, and every refusal comes before the first write.
pub mod Placement
pub mod Checks
pub mod Placed
pub mod Escalation
use edtech_lms_api.Prelude.{
  String, Bool, true, false, Option, none, some, List, [], ◌∷◌, ◌==◌, ◌&&◌, ◌||◌, not, is_some,
  filter, contains, if◌then◌else◌,
}
use edtech_lms_api.Enums.{superadmin_role}
use edtech_lms_api.Env.{Env}
use edtech_lms_api.Js.{Value}
use edtech_lms_api.Errors.{Result, ok, err, Failure, saying, not_found, or_throw, ◌>>=◌, ◌>>◌}
use edtech_lms_api.Claims.{OrgContext}
use edtech_lms_api.Scope.{scope_of, find_owned_user}
use edtech_lms_api.Staff.{
  Requested, not_sent, AfterChange, organisation_for_new_account, organisation_after_change,
}
use edtech_lms_api.Roles.{
  holds_super_admin, resolve_requested_roles, assert_may_set_roles, assert_may_add_roles,
  assert_may_modify_user, assert_may_change_sign_in, same_role_set,
}
use edtech_lms_api.Store.{
  Collation, Db, User, RoleRow, role_ids, Action, transaction, save_user, create_user_row,
  destroy_tokens, find_user,
}
use edtech_lms_api.Auth.{held_roles}

-- What a request says of an account.
pub record UserRequest : Type 0 where
  pub lmsuserid : String
  pub lmsusername : String
  pub lmsuserpasswordhash : String
  pub requested : Requested
  pub isdisabled : Bool
  pub isverified : Bool
  pub firstname : Value
  pub lastname : Value
  pub countries : Value
  pub schools : Value

abbrev pub no_such_user : Failure
no_such_user = saying not_found "That user doesn't exist."

-- What the refusals leave of a create: the roles, and the organisation.
pub record NewAccount : Type 0 where
  pub rows : List RoleRow
  pub organisationid : Option String

-- What they leave of an update.
pub record Change : Type 0 where
  pub user : User
  pub rows : List RoleRow
  pub after : AfterChange
  pub changes_password : Bool

-- `Boolean(text)`
abbrev pub is_text : String → Bool
is_text s = not (s == "")

module _ (c : Collation) (env : Env) where
  -- The refusals of `createUser`.
  unfoldable pub new_account : UserRequest → Value → Option OrgContext → Db → Result NewAccount
  new_account req roles org db = do
    _ ← scope_of org
    rows ← resolve_requested_roles c roles "lmsuserroles" db
    o ← organisation_for_new_account c org req.requested (holds_super_admin (role_ids rows)) db
    assert_may_set_roles org false rows o
    assert_may_add_roles c org [] rows db
    ok (record { rows = rows; organisationid = o })

  -- The row that is written, under the fresh uuid `id`.
  unfoldable pub new_row : UserRequest → NewAccount → Option String → String → User
  new_row req account currentuser id = record {
    lmsuserid = id;
    lmsusername = req.lmsusername;
    lmsuserpasswordhash = env.hash_password req.lmsuserpasswordhash;
    lmsuserrole = superadmin_role;
    organisationid = account.organisationid;
    isdisabled = req.isdisabled;
    isverified = req.isverified;
    roleids = role_ids account.rows;
    firstname = req.firstname;
    lastname = req.lastname;
    countries = req.countries;
    schools = req.schools;
    created_by = currentuser;
    updated_by = none;
  }

  unfoldable pub create_user :
      UserRequest → Value → Option String → Option OrgContext → String → Action User
  unfolding new_account new_row
  create_user req roles currentuser org id = transaction (λ db.
      new_account req roles org db >>= λ account.
      let user = new_row req account currentuser id in ok (user, create_user_row c user db))

  -- The refusals of `updateUser`. `currentuser` is the id of the account that asks.
  unfoldable pub user_change :
      UserRequest → Value → Option String → Option OrgContext → Db → Result Change
  user_change req roles currentuser org db = do
    _ ← scope_of org
    user ← find_owned_user c org req.lmsuserid no_such_user db
    let had = holds_super_admin user.roleids
    assert_may_modify_user org had
    rows ← resolve_requested_roles c roles "lmsuserroles" db
    let will_hold = holds_super_admin (role_ids rows)
    after ← organisation_after_change c org req.requested user.organisationid had will_hold db
    assert_may_set_roles org had rows after.organisationid
    assert_may_add_roles c org user.roleids rows db
    let changes_password = is_text req.lmsuserpasswordhash
    assert_may_change_sign_in c org (held_roles user db)
        (elim currentuser [ none ↦ false | some id ↦ id == user.lmsuserid ])
        (not (req.lmsusername == user.lmsusername)) changes_password db
    ok (record { user = user; rows = rows; after = after; changes_password = changes_password })

  -- The row that is saved, with its new roles.
  unfoldable pub changed_row : UserRequest → Change → Option String → User
  changed_row req change currentuser = record change.user {
    lmsusername = req.lmsusername;
    lmsuserpasswordhash =
        if change.changes_password
        then env.hash_password req.lmsuserpasswordhash
        else change.user.lmsuserpasswordhash;
    countries = req.countries;
    schools = req.schools;
    organisationid =
        if change.after.changed then change.after.organisationid else change.user.organisationid;
    updated_by = elim currentuser [ none ↦ change.user.updated_by | some id ↦ some id ];
    roleids = role_ids change.rows;
  }

  -- A changed role set or organisation ends the account's sessions.
  unfoldable pub end_sessions : Change → Db → Db
  end_sessions change db =
      if not (same_role_set change.user.roleids (role_ids change.rows)) || change.after.changed
      then destroy_tokens c change.user.lmsuserid db
      else db

  unfoldable pub update_user : UserRequest → Value → Option String → Option OrgContext → Action User
  unfolding user_change changed_row end_sessions
  update_user req roles currentuser org = transaction (λ db.
      user_change req roles currentuser org db >>= λ change.
      let user = changed_row req change currentuser in
      ok (user, end_sessions change (save_user c user db)))

  -- The refusals of `disableuserbyid`.
  unfoldable pub disable_target : String → Option OrgContext → Db → Result User
  disable_target lmsuserid org db = do
    _ ← scope_of org
    user ← find_owned_user c org lmsuserid no_such_user db
    assert_may_modify_user org (holds_super_admin user.roleids)
    assert_may_set_roles org (holds_super_admin user.roleids) [] user.organisationid
    ok user

  -- The account is disabled, loses its roles, and its sessions end.
  unfoldable pub disable_user_by_id : String → Option OrgContext → Action (Unit {0})
  unfolding disable_target
  disable_user_by_id lmsuserid org = transaction (λ db. disable_target lmsuserid org db >>= λ user.
      ok (
        tt,
        destroy_tokens c user.lmsuserid
            (save_user c (record user { isdisabled = true; roleids = [] }) db),
      ))
