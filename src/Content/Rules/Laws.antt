-- ===== src/Content/Rules/Laws.antt =====
-- What the rules of ownership let through.
use edtech_lms_api.Prelude.{
  String, true, Option, none, some, List, [], ◌∷◌, ◌≡◌, ◌↔◌, refl, sym, ap, arith, inl, inr, ◌⊎◌,
  Bool-cases, filter, all, eq_true, eq_self, ◌==◌, not, ◌&&◌, All,
}
use edtech_lms_api.Errors.{ok, >>-eq-ok, Result-cases}
use edtech_lms_api.Roles.{is_nil}
use edtech_lms_api.Claims.{OrgContext}
use edtech_lms_api.Scope.{platform, organisation, scope_of}
use edtech_lms_api.Store.{Collation}
use edtech_lms_api.Content.{Content, owner_of_curriculum}
use edtech_lms_api.Content.Rules.{
  assert_same_owner, differ, assert_enrolment_fits, each_same_owner, TagRow, is_foreign,
  first_owner, named, each_tag_fits, is_taken, tags_named, assert_tags_fit_owner,
  assert_tags_allowed,
}

-- Two owners may be joined exactly when, where both are there, they are the same text.
pub assert_same_owner_iff :
    (a b : Option String)
    → (assert_same_owner a b ≡ ok tt) ↔ ((x y : String) → a ≡ some x → b ≡ some y → x ≡ y)
unfolding assert_same_owner
assert_same_owner_iff none b = (λ h x y e. absurd (ground arith), λ h. refl)
assert_same_owner_iff (some a) none = (λ h x y e f. absurd (ground arith), λ h. refl)
assert_same_owner_iff (some a) (some b) = (
  (λ h x y e f. let same : a ≡ b = eq_true a b (ground arith) in ground arith),
  (λ h. let same : a ≡ b = h a b refl refl in ground (arith, eq_self b, same)),
)

-- A learner is enrolled exactly on curriculums that have no other owner than the school's.
pub assert_enrolment_fits_iff :
    (c : Collation) (t : Content) (owner : String) (ids : List String)
    → (assert_enrolment_fits c t (some owner) ids ≡ ok tt)
      ↔ All (λ id. (o : String) → owner_of_curriculum c t id ≡ some o → owner ≡ o) ids
unfolding assert_enrolment_fits each_same_owner
assert_enrolment_fits_iff c t owner [] = (λ h. tt, λ h. refl)
assert_enrolment_fits_iff c t owner (id ∷ ids) =
    let one = assert_same_owner_iff (some owner) (owner_of_curriculum c t id) in
    let rest = assert_enrolment_fits_iff c t owner ids in
    (
      (λ h.
          let (first, later) =
            >>-eq-ok (assert_same_owner (some owner) (owner_of_curriculum c t id)) _ h in
          ((λ o e. one.0 first owner o refl e), rest.0 later)),
      (λ (fits, later). rw (one.1 (λ x y e f. ground (arith, fits y f))) (rest.1 later)),
    )

eq_sym : (a b : String) → (a == b) ≡ (b == a)
eq_sym a b = elim (Bool-cases (a == b)) [
  | inl e ↦ ground (arith, ap (λ x. x == a) (sym (eq_true a b e)), eq_self a)
  | inr e ↦ elim (Bool-cases (b == a)) [
    | inl f ↦ ground (arith, ap (λ x. x == b) (sym (eq_true b a f)), eq_self b)
    | inr f ↦ ground arith
  ]
]

differ_sym : (a b : Option String) → differ a b ≡ differ b a
differ_sym none none = refl
differ_sym none (some b) = refl
differ_sym (some a) none = refl
differ_sym (some a) (some b) = ap not (eq_sym a b)

module _ (lower_case : String → String) where
  first-foreign :
      (owner : String) (rows : List TagRow)
      → (not (is_nil rows) && all (is_foreign owner) rows) ≡ true
      → differ (some owner) (first_owner rows) ≡ true
  first-foreign owner [] h = ground arith
  first-foreign owner (r ∷ rs) h = ground (arith, differ_sym (some owner) r.organisationid)

  each_tag_fits_iff :
      (owner : String) (rows : List TagRow) (names : List String)
      → (each_tag_fits lower_case owner rows names ≡ ok tt)
        ↔ (all (λ n. not (is_taken lower_case owner rows n)) names ≡ true)
  unfolding each_tag_fits assert_same_owner
  each_tag_fits_iff owner rows [] = (λ h. refl, λ h. refl)
  each_tag_fits_iff owner rows (name ∷ names) =
      elim (Bool-cases (is_taken lower_case owner rows name)) [
        | inl bad ↦ ground (arith, first-foreign owner (named lower_case rows name) bad)
        | inr good ↦ ground (arith, each_tag_fits_iff owner rows names)
      ]

-- Tags are allowed for an owner exactly where the caller acts in an organisation, or is the platform
-- and none of the names that are not empty is held, among the tags not deleted, by other owners
-- only.
pub assert_tags_allowed_iff :
    (c : Collation) (lower_case : String → String) (org : Option OrgContext) (table : List TagRow)
    (names : List String) (owner : String)
    → (assert_tags_allowed c lower_case org table names (some owner) ≡ ok tt) ↔ (
        ((id : String) × (scope_of org ≡ ok (organisation id)))
        ⊎ ((scope_of org ≡ ok platform)
            × (all
                  (λ n. not (
                    is_taken lower_case owner
                      (tags_named c table (filter (λ m. not (m == "")) names))
                      n))
                  (filter (λ m. not (m == "")) names)
                ≡ true)))
unfolding assert_tags_allowed assert_tags_fit_owner
assert_tags_allowed_iff c lower_case org table names owner =
    let wanted = filter (λ m. not (m == "")) names in
    elim (Result-cases (scope_of org)) [
      | inl (e, refused) ↦ ground arith
      | inr (platform, scoped) ↦
          ground (arith, each_tag_fits_iff lower_case owner (tags_named c table wanted) wanted)
      | inr (organisation id, scoped) ↦ (λ h. inl (id, scoped), λ h. rw (scoped) refl)
    ]
