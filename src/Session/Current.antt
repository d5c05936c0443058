-- ===== src/Session/Current.antt =====
-- When a staff token is still good, read off the tables.
use mathlib.Core.Path.{subst}
use edtech_lms_api.Prelude.{
  String, true, false, Option, none, some, List, ◌≡◌, refl, ap, sym, ◌∙◌, ◌≢◌, ◌↔◌, not, any, find,
  arith, contains, is_some, inl, inr, Option-cases, eq_true, eq_of, ◌&&◌,
}
use edtech_lms_api.Enums.{superadmin_role}
use edtech_lms_api.Errors.{ok}
use edtech_lms_api.Store.{Collation, Db, User, Organisation, Token, find_user, find_organisation}
use edtech_lms_api.Session.{
  OrganisationClaims, organisation_claims, session_row, yes_value, is_session_token,
  claimed_organisation, session_is_current, staff_session_query, joined_row,
  is_staff_session_current,
}

-- Claims are made exactly when no organisation is asked for or the user is a platform user: one
-- who has no organisation and holds Super Admin. A platform user acts in the organisation asked
-- for, and any other user in its own.
pub organisation_claims_iff :
    (own : Option String) (roleids : List String) (acting : Option String) (k : OrganisationClaims)
    → (organisation_claims own roleids acting ≡ ok k) ↔ (
        (k.isplatform ≡ (not (is_some own) && contains roleids superadmin_role))
        × (k.isplatform ≡ true → k.organisationid ≡ acting)
        × (k.isplatform ≡ false → (k.organisationid ≡ own) × (acting ≡ none)))
unfolding organisation_claims
organisation_claims_iff none roleids acting k = ground arith
organisation_claims_iff (some o) roleids acting k = ground arith

module _ (c : Collation) where
  open c use {matches}

  -- What makes a session good, as a condition on the tables: a row of `tokens` for the id and the
  -- user, an enabled user, a usable organisation where one is claimed, and claims that still fit
  -- the user.
  pub record IsCurrent (jti userid : String) (k : OrganisationClaims) (db : Db) : Type 0 where
    pub token : Token
    pub token_found : find (is_session_token c jti userid) db.tokens ≡ some token
    pub user : User
    pub user_found : find_user c userid db ≡ some user
    pub enabled : user.isdisabled ≡ false
    pub usable :
        (id : String)
        → k.organisationid ≡ some id
        → (o : Organisation) × (find_organisation c id db ≡ some o)
          × (o.isdeleted ≡ false)
          × (o.organisationstatus ≡ true)
    pub staff :
        k.isplatform ≡ false → (k.organisationid ≢ none) × (user.organisationid ≡ k.organisationid)
    pub platform :
        k.isplatform ≡ true
        → (user.organisationid ≡ none) × (any (λ r. matches r superadmin_role) user.roleids ≡ true)

  -- The check on the joined row, where an organisation is claimed and where none is.
  row_current_some :
      (u : User) (id : String) (o : Organisation) (k : OrganisationClaims)
      → k.organisationid ≡ some id
      → (is_staff_session_current (some (session_row c u (some o))) k ≡ true) ↔ (
          (u.isdisabled ≡ false)
          × (o.isdeleted ≡ false)
          × (o.organisationstatus ≡ true)
          × (k.isplatform ≡ false → u.organisationid ≡ k.organisationid)
          × (k.isplatform ≡ true
              → (u.organisationid ≡ none)
                × (any (λ r. matches r superadmin_role) u.roleids ≡ true)))
  unfolding is_staff_session_current yes_value
  row_current_some u id o k e = elim (Option-cases u.organisationid) [
    | inl n ↦ ground arith
    | inr (v, n) ↦ ground (arith, eq_true v id, eq_of v id)
  ]

  row_current_missing :
      (u : User) (id : String) (k : OrganisationClaims)
      → k.organisationid ≡ some id
      → is_staff_session_current (some (session_row c u none)) k ≡ false
  unfolding is_staff_session_current yes_value
  row_current_missing u id k e = ground arith

  row_current_none :
      (u : User) (k : OrganisationClaims)
      → k.organisationid ≡ none
      → (is_staff_session_current (some (session_row c u none)) k ≡ true) ↔ (
          (u.isdisabled ≡ false)
          × (k.isplatform ≡ true)
          × (u.organisationid ≡ none)
          × (any (λ r. matches r superadmin_role) u.roleids ≡ true))
  unfolding is_staff_session_current yes_value
  row_current_none u k e = ground arith

  -- What the query hands to the check, once the token and the user are found.
  session_opened :
      (jti userid : String) (k : OrganisationClaims) (db : Db) {t : Token} {u : User}
      → find (is_session_token c jti userid) db.tokens ≡ some t
      → find_user c userid db ≡ some u
      → session_is_current c jti userid k db
        ≡ is_staff_session_current
            (some (session_row c u (claimed_organisation c k.organisationid db.organisations)))
            k
  unfolding session_is_current staff_session_query joined_row
  session_opened jti userid k db ft fu = rw (ft, fu, staff_session_query, joined_row) refl

  claimed_none :
      (k : OrganisationClaims) (db : Db)
      → k.organisationid ≡ none
      → claimed_organisation c k.organisationid db.organisations ≡ none
  claimed_none k db e = ap (λ o. claimed_organisation c o db.organisations) e

  claimed_some :
      (k : OrganisationClaims) (db : Db) (id : String)
      → k.organisationid ≡ some id
      → claimed_organisation c k.organisationid db.organisations ≡ find_organisation c id db
  unfolding find_organisation
  claimed_some k db id e = ap (λ o. claimed_organisation c o db.organisations) e

  row_sound :
      (jti userid : String) (k : OrganisationClaims) (db : Db) (t : Token) (u : User)
      → find (is_session_token c jti userid) db.tokens ≡ some t
      → find_user c userid db ≡ some u
      → is_staff_session_current
          (some (session_row c u (claimed_organisation c k.organisationid db.organisations)))
          k
        ≡ true
      → IsCurrent jti userid k db
  row_sound jti userid k db t u ft fu h = elim (Option-cases k.organisationid) [
    | inl n ↦
        let (on, plat, home, held) = (row_current_none u k n).0 (
          subst (λ j. is_staff_session_current (some (session_row c u j)) k ≡ true)
            (claimed_none k db n) h) in
        record {
          token = t;
          token_found = ft;
          user = u;
          user_found = fu;
          enabled = on;
          usable = λ id e. absurd (ground arith);
          staff = λ p. absurd (ground arith);
          platform = λ p. (home, held);
        }
    | inr (id, e) ↦ elim (Option-cases (find_organisation c id db)) [
      | inl missing ↦ absurd (ground (arith, row_current_missing u id k e, claimed_some k db id e))
      | inr (o, found) ↦
          let (on, live, active, staff, platform) = (row_current_some u id o k e).0 (
            subst (λ j. is_staff_session_current (some (session_row c u j)) k ≡ true)
              (claimed_some k db id e ∙ found) h) in
          record {
            token = t;
            token_found = ft;
            user = u;
            user_found = fu;
            enabled = on;
            usable = λ id' e'. (
              o,
              subst (λ i. find_organisation c i db ≡ some o) (ground (arith, e, e')) found,
              live,
              active,
            );
            staff = λ p. (ground arith, staff p);
            platform = platform;
          }
    ]
  ]

  no_token_not_current :
      (jti userid : String) (k : OrganisationClaims) (db : Db)
      → find (is_session_token c jti userid) db.tokens ≡ none
      → session_is_current c jti userid k db ≡ false
  unfolding session_is_current staff_session_query joined_row is_staff_session_current
  no_token_not_current jti userid k db n = rw (n, staff_session_query, joined_row)

  no_user_not_current :
      (jti userid : String) (k : OrganisationClaims) (db : Db) {t : Token}
      → find (is_session_token c jti userid) db.tokens ≡ some t
      → find_user c userid db ≡ none
      → session_is_current c jti userid k db ≡ false
  unfolding session_is_current staff_session_query joined_row is_staff_session_current
  no_user_not_current jti userid k db ft n = rw (ft, n, staff_session_query, joined_row)

  session_is_current_sound :
      (jti userid : String) (k : OrganisationClaims) (db : Db)
      → session_is_current c jti userid k db ≡ true
      → IsCurrent jti userid k db
  session_is_current_sound jti userid k db h =
      elim (Option-cases (find (is_session_token c jti userid) db.tokens)) [
        | inl no_token ↦ absurd (ground (arith, no_token_not_current jti userid k db no_token))
        | inr (t, ft) ↦ elim (Option-cases (find_user c userid db)) [
          | inl no_user ↦ absurd (ground (arith, no_user_not_current jti userid k db ft no_user))
          | inr (u, fu) ↦
              row_sound jti userid k db t u ft fu (sym (session_opened jti userid k db ft fu) ∙ h)
        ]
      ]

  session_is_current_complete :
      (jti userid : String) (k : OrganisationClaims) (db : Db)
      → IsCurrent jti userid k db
      → session_is_current c jti userid k db ≡ true
  session_is_current_complete jti userid k db w =
      session_opened jti userid k db w.token_found w.user_found
      ∙ elim (Option-cases k.organisationid) [
        | inl n ↦
            ap (λ j. is_staff_session_current (some (session_row c w.user j)) k)
              (claimed_none k db n)
            ∙ (row_current_none w.user k n).1 (
              w.enabled,
              ground (arith, w.staff),
              ground (arith, w.platform, w.staff),
              ground (arith, w.platform, w.staff),
            )
        | inr (id, e) ↦
            let (o, found, live, active) = w.usable id e in
            ap (λ j. is_staff_session_current (some (session_row c w.user j)) k)
              (claimed_some k db id e ∙ found)
            ∙ (row_current_some w.user id o k e).1
                (w.enabled, live, active, (λ p. (w.staff p).1), w.platform)
      ]

  -- A staff session passes the per-request check exactly when the tables make it good.
  pub session_is_current_iff :
      (jti userid : String) (k : OrganisationClaims) (db : Db)
      → (session_is_current c jti userid k db ≡ true) ↔ IsCurrent jti userid k db
  session_is_current_iff jti userid k db =
      (session_is_current_sound jti userid k db, session_is_current_complete jti userid k db)
