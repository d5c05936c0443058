-- ===== src/Content/Rules.antt =====
-- src/business/content-owner.ts: who owns new content, and what may be attached to what.
pub mod Laws
use edtech_lms_api.Prelude.{
  String, Bool, true, false, Option, none, some, List, [], ◌∷◌, ◌==◌, ◌&&◌, not, find, filter, any,
  all, is_some, if◌then◌else◌,
}
use edtech_lms_api.Roles.{is_nil}
use edtech_lms_api.Errors.{Result, ok, err, Failure, saying, invalid_input, throw_if, ◌>>=◌, ◌>>◌}
use edtech_lms_api.Claims.{OrgContext}
use edtech_lms_api.Scope.{Scope, platform, organisation, scope_of}
use edtech_lms_api.Store.{Collation}
use edtech_lms_api.Content.{Content, AttachOwners, owner_of_curriculum}

abbrev pub no_organisation_chosen : Failure
no_organisation_chosen =
    saying invalid_input
      "Choose an organisation to act in before you create content. Use the organisation switcher, then try again."

unfoldable pub owner_for_new_content : Option OrgContext → Result String
owner_for_new_content org =
    scope_of org >>= λ s. elim s [ platform ↦ err no_organisation_chosen | organisation id ↦ ok id ]

abbrev pub different_owners : Failure
different_owners =
    saying invalid_input
      "These belong to different organisations, so one can't be attached to the other."

abbrev pub differ : Option String → Option String → Bool
differ none b = false
differ (some a) none = false
differ (some a) (some b) = not (a == b)

unfoldable pub assert_same_owner : Option String → Option String → Result (Unit {0})
assert_same_owner a b = throw_if (differ a b) different_owners

unfoldable pub assert_same_owners : AttachOwners → Result (Unit {0})
assert_same_owners ends = assert_same_owner ends.parent ends.question

-- A row of a tag table.
pub record TagRow : Type 0 where
  pub name : String
  pub isdeleted : Bool
  pub organisationid : Option String

-- A row that names another owner.
abbrev pub is_foreign : String → TagRow → Bool
is_foreign owner r = differ r.organisationid (some owner)

abbrev pub first_owner : List TagRow → Option String
first_owner [] = none
first_owner (r ∷ rs) = r.organisationid

module _ (c : Collation) (t : Content) where
  -- The loop of `assertEnrolmentFits`.
  each_same_owner : Option String → List String → Result (Unit {0})
  each_same_owner owner [] = ok tt
  each_same_owner owner (id ∷ ids) = do
    assert_same_owner owner (owner_of_curriculum c t id)
    each_same_owner owner ids

  unfoldable pub assert_enrolment_fits : Option String → List String → Result (Unit {0})
  unfolding each_same_owner
  assert_enrolment_fits none ids = ok tt
  assert_enrolment_fits (some owner) ids = each_same_owner (some owner) ids

module _ (lower_case : String → String) where
  -- The rows of a name, whatever its case.
  abbrev pub named : List TagRow → String → List TagRow
  named rows name = filter (λ r. lower_case r.name == lower_case name) rows

  -- Are there rows of the name, each with another owner?
  abbrev pub is_taken : String → List TagRow → String → Bool
  is_taken owner rows name =
      not (is_nil (named rows name)) && all (is_foreign owner) (named rows name)

  -- The loop of `assertTagsFitOwner`, over the rows that were read.
  each_tag_fits : String → List TagRow → List String → Result (Unit {0})
  each_tag_fits owner rows [] = ok tt
  each_tag_fits owner rows (name ∷ names) = do
    if is_taken owner rows name
        then assert_same_owner (some owner) (first_owner (named rows name))
        else ok tt
    each_tag_fits owner rows names

-- `where: { name: { [Op.in]: wanted }, isdeleted: false }`
abbrev pub tags_named : Collation → List TagRow → List String → List TagRow
tags_named c table wanted = filter (λ r. any (c.matches r.name) wanted && not r.isdeleted) table

module _ (c : Collation) (lower_case : String → String) where
  -- `table` is the tag table of the kind that is attached to.
  unfoldable pub assert_tags_fit_owner :
      List TagRow → List String → Option String → Result (Unit {0})
  unfolding each_tag_fits
  assert_tags_fit_owner table names none = ok tt
  assert_tags_fit_owner table names (some owner) =
      let wanted = filter (λ n. not (n == "")) names in
      each_tag_fits lower_case owner (tags_named c table wanted) wanted

  unfoldable pub assert_tags_allowed :
      Option OrgContext → List TagRow → List String → Option String → Result (Unit {0})
  assert_tags_allowed org table names owner = scope_of org >>= λ s. elim s [
    | platform ↦ assert_tags_fit_owner table names owner
    | organisation id ↦ ok tt
  ]
