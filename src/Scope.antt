-- ===== src/Scope.antt =====
-- src/business/org-scope.ts: who a staff request acts for, and reads confined to it.
use edtech_lms_api.Prelude.{
  String, Bool, true, false, Option, none, some, ◌==◌, ◌&&◌, not, find, if◌then◌else◌,
}
use edtech_lms_api.Errors.{Result, ok, err, Failure, coded, not_allowed, ◌>>=◌, or_throw}
use edtech_lms_api.Claims.{OrgContext}
use edtech_lms_api.Store.{Collation, Db, User, Organisation}

pub data Scope : Type 0 where
  platform : Scope
  organisation : String → Scope

abbrev platform_only : Bool → Result Scope
platform_only true = ok platform
platform_only false = err (coded not_allowed)

-- The empty text is no organisation, and it is not null either.
unfoldable pub scope_of : Option OrgContext → Result Scope
scope_of none = err (coded not_allowed)
scope_of (some org) = elim org.organisationid [
  | some id ↦ if id == "" then err (coded not_allowed) else ok (organisation id)
  | none ↦ platform_only org.isplatform
]

abbrev pub is_platform : Scope → Bool
is_platform platform = true
is_platform (organisation id) = false

unfoldable pub is_platform_scope : Option OrgContext → Result Bool
is_platform_scope org = scope_of org >>= λ s. ok (is_platform s)

-- The value of `X-Organisation-Id`.
unfoldable pub organisation_header : Option OrgContext → Result String
organisation_header org =
    scope_of org >>= λ s. elim s [ platform ↦ ok "platform" | organisation id ↦ ok id ]

module _ (c : Collation) where
  open c use {matches}

  -- A column that may be NULL equals no text.
  abbrev pub column_is : String → Option String → Bool
  column_is id none = false
  column_is id (some v) = matches v id

  -- `ownedWhere`, as a test of a row's `organisationid`.
  unfoldable pub owned_where : Scope → Option String → Bool
  owned_where platform owner = true
  owned_where (organisation id) owner = column_is id owner

  -- `findOwned(lmsusers, id, org, { notFound })`
  unfoldable pub find_owned_user : Option OrgContext → String → Failure → Db → Result User
  find_owned_user org id not_found db = scope_of org >>= λ scope.
      or_throw (find (λ u. matches u.lmsuserid id && owned_where scope u.organisationid) db.users)
        not_found

  -- Is the organisation there and not deleted? (A suspended one is.)
  unfoldable pub lock_live_organisation : String → Db → Option Organisation
  lock_live_organisation id db =
      find (λ o. matches o.organisationid id && not o.isdeleted) db.organisations
