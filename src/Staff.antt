-- ===== src/Staff.antt =====
-- src/business/staff-organisation.ts: which organisation a staff account belongs to.
pub mod Laws
use edtech_lms_api.Prelude.{
  String, Bool, true, false, Option, none, some, ◌==◌, ◌&&◌, not, is_some, if◌then◌else◌,
}
use edtech_lms_api.Errors.{
  Result, ok, err, coded, not_allowed, invalid_field, throw_if, or_throw, ◌>>=◌, ◌>>◌,
}
use edtech_lms_api.Claims.{OrgContext}
use edtech_lms_api.Scope.{
  Scope, platform, organisation, scope_of, is_platform, lock_live_organisation,
}
use edtech_lms_api.Session.{same_text}
use edtech_lms_api.Store.{Collation, Db}

-- The `organisationid` of a request: its key is not sent, or sent as null or as a text.
pub data Requested : Type 0 where
  not_sent : Requested
  sent : Option String → Requested

-- `requested !== undefined && requested !== id`
abbrev pub differs_from : String → Requested → Bool
differs_from id not_sent = false
differs_from id (sent none) = true
differs_from id (sent (some r)) = not (r == id)

-- `requested !== undefined && requested !== null`
abbrev pub names_one : Requested → Bool
names_one not_sent = false
names_one (sent o) = is_some o

-- `typeof requested === "string"`
abbrev pub requested_text : Requested → Option String
requested_text not_sent = none
requested_text (sent o) = o

abbrev pub is_sent : Requested → Bool
is_sent not_sent = false
is_sent (sent o) = true

-- `requested === undefined ? current : requested`
abbrev pub resulting : Requested → Option String → Option String
resulting not_sent current = current
resulting (sent o) current = o

pub record AfterChange : Type 0 where
  pub organisationid : Option String
  pub changed : Bool

module _ (c : Collation) where
  abbrev pub is_live : String → Db → Bool
  is_live id db = is_some (lock_live_organisation c id db)

  -- For an account without Super Admin, made by the platform.
  chosen_organisation : Requested → Db → Result (Option String)
  chosen_organisation requested db = do
    id ←
        or_throw (requested_text requested)
          (invalid_field "organisationid" "Choose the organisation this account belongs to.")
    throw_if (not (is_live id db))
        (invalid_field "organisationid" "Choose an organisation that exists.")
    ok (some id)

  in_scope_of : Scope → Requested → Bool → Db → Result (Option String)
  unfolding chosen_organisation
  in_scope_of (organisation id) requested holds db = do
    throw_if (differs_from id requested) (coded not_allowed)
    throw_if (not (is_live id db)) (coded not_allowed)
    ok (some id)
  in_scope_of platform requested true db = do
    throw_if (names_one requested)
        (invalid_field "organisationid" "A Super Admin account has no organisation.")
    ok none
  in_scope_of platform requested false db = chosen_organisation requested db

  unfoldable pub organisation_for_new_account :
      Option OrgContext → Requested → Bool → Db → Result (Option String)
  unfolding in_scope_of
  organisation_for_new_account org requested holds_super_admin db = do
    scope ← scope_of org
    in_scope_of scope requested holds_super_admin db

  -- May an account that changes organisation get this one?
  abbrev pub may_move_to : Option String → Bool → Db → Result (Unit {0})
  may_move_to none will_hold db =
      throw_if (not will_hold)
        (invalid_field "organisationid" "An account without an organisation must hold Super Admin.")
  may_move_to (some id) will_hold db =
      throw_if (not will_hold && not (is_live id db))
        (invalid_field "organisationid" "Choose an organisation that exists.")

  unfoldable pub organisation_after_change :
      Option OrgContext → Requested → Option String → Bool → Bool → Db → Result AfterChange
  organisation_after_change org requested current had will_hold db = do
    scope ← scope_of org
    throw_if (is_sent requested && not (is_platform scope)) (coded not_allowed)
    let result = resulting requested current
    let changed = not (same_text result current)
    if changed then may_move_to result will_hold db else ok tt
    throw_if (had && (not (is_some current) && (not (is_some result) && not will_hold))) (
        invalid_field "organisationid"
          "Give this account an organisation to remove Super Admin from it.")
    ok (record { organisationid = result; changed = changed })
