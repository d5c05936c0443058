-- ===== src/Claims/Laws.antt =====
-- What a caller's token says: the readers of its claims agree with each other.
use edtech_lms_api.Prelude.{
  String, true, false, none, some, ◌≡◌, refl, ◌∙◌, ap, arith, inl, inr, ◌⊎◌, Bool-cases, ◌==◌,
  eq_true, ◌||◌,
}
use edtech_lms_api.Errors.{ok, err, coded, not_allowed}
use edtech_lms_api.Js.{
  Value, undefined, null, bool, num, str, arr, obj, get, is_true, as_string, is_null, is_object,
  non_empty,
}
use edtech_lms_api.Claims.{
  OrgContext, org_of, has_organisation_claims, has_school_user_id, is_uuid_shaped, is_uuid_text,
  fits_shape,
}
use edtech_lms_api.Guards.{is_platform_user}
use edtech_lms_api.Scope.{platform, organisation, scope_of}

-- What a value read by `orgOf` has passed.
org_of-ok :
    (user : Value) (org : OrgContext)
    → org_of user ≡ ok org
    → (is_object user ≡ true)
      × (has_school_user_id user ≡ false)
      × (non_empty (get "lmsuserid" user) ≡ true)
      × (has_organisation_claims user ≡ true)
      × (org.organisationid ≡ as_string (get "organisationid" user))
      × (org.isplatform ≡ is_true (get "isplatform" user))
unfolding org_of
org_of-ok user org h = ground arith

-- The guard of the platform's routes and the reader of the claims agree on who is the platform.
pub is_platform_user-org_of :
    (user : Value) (org : OrgContext)
    → org_of user ≡ ok org
    → is_platform_user user ≡ org.isplatform
unfolding is_platform_user
is_platform_user-org_of user org h = ground (arith, org_of-ok user org h)

no_uuid : is_uuid_text "" ≡ false
unfolding is_uuid_text fits_shape
no_uuid = refl

uuid_not_empty : (s : String) → is_uuid_text s ≡ true → (s == "") ≡ false
uuid_not_empty s h = elim (Bool-cases (s == "")) [
  | inl e ↦ absurd (ground (arith, ap is_uuid_text (eq_true s "" e), no_uuid))
  | inr n ↦ n
]

claimed_organisation :
    (v : Value)
    → (is_null v || is_uuid_shaped v) ≡ true
    → (as_string v ≡ none) ⊎ ((id : String) × (as_string v ≡ some id) × ((id == "") ≡ false))
claimed_organisation undefined h = inl refl
claimed_organisation null h = inl refl
claimed_organisation (bool b) h = inl refl
claimed_organisation (num n) h = inl refl
claimed_organisation (str s) h = inr (s, refl, uuid_not_empty s (ground arith))
claimed_organisation (arr vs) h = inl refl
claimed_organisation (obj fs) h = inl refl

-- A context read from a token has a scope unless it has neither an organisation nor the platform:
-- its organisation, where it has one, and else the platform's.
pub scope_of-org_of :
    (user : Value) (org : OrgContext)
    → org_of user ≡ ok org
    → ((id : String) × (org.organisationid ≡ some id)
        × (scope_of (some org) ≡ ok (organisation id)))
      ⊎ ((org.organisationid ≡ none)
          × (is_platform_user user ≡ true)
          × (scope_of (some org) ≡ ok platform))
      ⊎ ((org.organisationid ≡ none)
          × (is_platform_user user ≡ false)
          × (scope_of (some org) ≡ err (coded not_allowed)))
unfolding scope_of has_organisation_claims
scope_of-org_of user org h =
    let (isobj, notschool, staff, claims, org_eq, plat_eq) = org_of-ok user org h in
    elim (claimed_organisation (get "organisationid" user) (ground arith)) [
      | inr (id, e, n) ↦ inl (id, org_eq ∙ e, ground arith)
      | inl e ↦ elim (Bool-cases org.isplatform) [
        | inl p ↦ inr (inl (org_eq ∙ e, is_platform_user-org_of user org h ∙ p, ground arith))
        | inr p ↦ inr (inr (org_eq ∙ e, is_platform_user-org_of user org h ∙ p, ground arith))
      ]
    ]
