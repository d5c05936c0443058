-- ===== src/Session/Payloads.antt =====
-- What a payload must say to be read as the claims of a staff session.
use edtech_lms_api.Prelude.{◌≡◌, ◌↔◌, inl, inr, true, false, some, arith, Option-cases, ◌==◌}
use edtech_lms_api.Js.{Value, bool, str, get, nullable}
use edtech_lms_api.Session.{claims_of, SessionClaims, session_claims, validate_staff_access_token}
use edtech_lms_api.Session.Current.{IsCurrent, session_is_current_iff}
use edtech_lms_api.Store.{Collation, Db}

-- The claims that a payload gives, property by property.
pub record Says (payload : Value) (k : SessionClaims) : Type 0 where
  pub said_jti : get "jti" payload ≡ str k.jti
  pub said_user : get "lmsuserid" payload ≡ str k.lmsuserid
  pub named : (k.lmsuserid == "") ≡ false
  pub said_organisation : get "organisationid" payload ≡ nullable k.claims.organisationid
  pub said_platform : get "isplatform" payload ≡ bool k.claims.isplatform

claims_of-some :
    (a b o p : Value) (k : SessionClaims)
    → claims_of a b o p ≡ some k
    → (a ≡ str k.jti)
      × (b ≡ str k.lmsuserid)
      × ((k.lmsuserid == "") ≡ false)
      × (o ≡ nullable k.claims.organisationid)
      × (p ≡ bool k.claims.isplatform)
claims_of-some a b o p k h = ground arith

claims_of-said :
    (a b o p : Value) (k : SessionClaims)
    → a ≡ str k.jti
    → b ≡ str k.lmsuserid
    → (k.lmsuserid == "") ≡ false
    → o ≡ nullable k.claims.organisationid
    → p ≡ bool k.claims.isplatform
    → claims_of a b o p ≡ some k
claims_of-said a b o p k ea eb named eo ep = elim (Option-cases k.claims.organisationid) [
  | inl n ↦ ground arith
  | inr (id, n) ↦ ground arith
]

-- The claims of a session are read from a payload exactly when it says them.
pub session_claims_iff :
    (payload : Value) (k : SessionClaims) → (session_claims payload ≡ some k) ↔ Says payload k
unfolding session_claims
session_claims_iff payload k = (
  (λ h.
      let (jti, user, named, organisation, plat) =
        claims_of-some (get "jti" payload) (get "lmsuserid" payload) (get "organisationid" payload)
          (get "isplatform" payload) k h in
      record {
        said_jti = jti;
        said_user = user;
        named = named;
        said_organisation = organisation;
        said_platform = plat;
      }),
  (λ s.
      claims_of-said (get "jti" payload) (get "lmsuserid" payload) (get "organisationid" payload)
        (get "isplatform" payload) k s.said_jti s.said_user s.named s.said_organisation
        s.said_platform),
)

-- A staff payload passes the per-request check exactly when it says claims whose session is good.
pub validate_staff_access_token_iff :
    (c : Collation) (payload : Value) (db : Db)
    → (validate_staff_access_token c payload db ≡ true)
      ↔ ((k : SessionClaims) × Says payload k × IsCurrent c k.jti k.lmsuserid k.claims db)
unfolding validate_staff_access_token
validate_staff_access_token_iff c payload db = (
  (λ h. elim (Option-cases (session_claims payload)) [
    | inl n ↦ absurd (ground arith)
    | inr (k, e) ↦ (
      k,
      (session_claims_iff payload k).0 e,
      (session_is_current_iff c k.jti k.lmsuserid k.claims db).0 (ground arith),
    )
  ]),
  (λ (k, says, good).
      let e = (session_claims_iff payload k).1 says in
      let now = (session_is_current_iff c k.jti k.lmsuserid k.claims db).1 good in ground arith),
)
