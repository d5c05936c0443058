-- ===== src/Session/Minted.antt =====
-- Minting a token and checking it on a later request fit together.
use edtech_lms_api.Prelude.{
  String, Bool, true, false, Option, none, some, List, [], ◌∷◌, ◌≡◌, refl, ◌≢◌, not, any, find,
  arith, inl, inr, ◌⊎◌, Bool-cases, ◌&&◌, ◌∙◌, sym, contains, is_some, ◌==◌, eq_true,
}
use edtech_lms_api.Enums.{superadmin_role}
use edtech_lms_api.Js.{str, bool, get, put, spread, nullable}
use edtech_lms_api.Errors.{Result, ok, coded, login_failed, throw_if, ◌>>◌, >>=-eq-ok}
use edtech_lms_api.Env.{Env}
use edtech_lms_api.Store.{
  role_ids, Collation, Db, User, RoleRow, Organisation, find_user, find_organisation,
  destroy_tokens_of_type, create_token,
}
use edtech_lms_api.Store.Keys.{OrganisationsAreKeyed, find_of_any}
use edtech_lms_api.Session.{
  OrganisationClaims, claims_of, organisation_claims, session_claims, session_is_current,
  validate_staff_access_token, is_session_token,
}
use edtech_lms_api.Session.Current.{IsCurrent, organisation_claims_iff, session_is_current_iff}
use edtech_lms_api.Session.Rows.{find-mint_rows, new_row, session_of_no_lookup}
use edtech_lms_api.Session.Mint.{
  mint_claims, mint_rows, access_payload, organisation_is_active, save_token,
  own_organisation_usable,
}

claims_of-nullable :
    (jti id : String) (o : Option String) (p : Bool)
    → (id == "") ≡ false
    → claims_of (str jti) (str id) (nullable o) (bool p)
      ≡ some (record {
        jti = jti;
        lmsuserid = id;
        claims = record { organisationid = o; isplatform = p };
      })
claims_of-nullable jti id none p h = rw h
claims_of-nullable jti id (some o) p h = rw h

-- Reading the session's claims back out of the payload that was minted gives those claims.
session_claims-access_payload :
    (env : Env) (user : User) (held : List RoleRow) (k : OrganisationClaims) (accessid : String)
    (db : Db)
    → (user.lmsuserid == "") ≡ false
    → session_claims (access_payload env user held k accessid db)
      ≡ some (record { jti = accessid; lmsuserid = user.lmsuserid; claims = k })
unfolding session_claims access_payload get put spread ◌==◌
session_claims-access_payload env user held k accessid db named =
    claims_of-nullable accessid user.lmsuserid k.organisationid k.isplatform named

mint_guards :
    (r : Result OrganisationClaims) (k' k : OrganisationClaims) (usable : Bool)
    → r ≡ ok k'
    → (throw_if (not k'.isplatform && not (is_some k'.organisationid)) (coded login_failed)
        >> (throw_if (not usable) (coded login_failed) >> ok k'))
      ≡ ok k
    → (r ≡ ok k) × ((k.isplatform ≡ true) ⊎ (k.organisationid ≢ none)) × (usable ≡ true)
mint_guards r k' k usable made h = ground arith

-- What a successful mint has decided.
pub mint_claims-ok :
    (c : Collation) (user : User) (held : List RoleRow) (acting : Option String) (db : Db)
    (k : OrganisationClaims)
    → mint_claims c user held acting db ≡ ok k
    → (organisation_claims user.organisationid (role_ids held) acting ≡ ok k)
      × ((k.isplatform ≡ true) ⊎ (k.organisationid ≢ none))
      × (own_organisation_usable c user.organisationid db ≡ true)
unfolding mint_claims
mint_claims-ok c user held acting db k h =
    let (k', made, rest) =
      >>=-eq-ok (organisation_claims user.organisationid (role_ids held) acting) _ h in
    mint_guards _ k' k (own_organisation_usable c user.organisationid db) made rest

any_of_contains :
    (c : Collation) (a : String) (xs : List String)
    → contains xs a ≡ true
    → any (λ x. c.matches x a) xs ≡ true
unfolding contains
any_of_contains c a [] h = h
any_of_contains c a (x ∷ xs) h = elim (Bool-cases (x == a)) [
  | inl e ↦ rw (eq_true x a e, c.matches_refl a)
  | inr n ↦ ground (arith, any_of_contains c a xs)
]

module _ (c : Collation) (user : User) (held : List RoleRow) (db : Db) where
  -- The state a mint is made in: the user is the enabled row that its id finds, the role rows are
  -- those linked to it, and organisations have their primary key.
  pub record IsFresh : Type 0 where
    pub named : (user.lmsuserid == "") ≡ false
    pub found : find_user c user.lmsuserid db ≡ some user
    pub enabled : user.isdisabled ≡ false
    pub linked :
        contains (role_ids held) superadmin_role ≡ true
        → contains user.roleids superadmin_role ≡ true
    pub placed : user.organisationid ≢ some ""
    pub keyed : OrganisationsAreKeyed c db.organisations

  usable_organisation :
      (id : String)
      → IsFresh
      → organisation_is_active c id db ≡ true
      → (o : Organisation) × (find_organisation c id db ≡ some o)
        × (o.isdeleted ≡ false)
        × (o.organisationstatus ≡ true)
  unfolding organisation_is_active find_organisation
  usable_organisation id fresh h =
      let (o, found, passed) =
        find_of_any c id (λ o. not o.isdeleted && o.organisationstatus) db.organisations fresh.keyed
          h in
      (o, found, ground arith, ground arith)

  own_is_active :
      (o : Option String) (id : String)
      → o ≡ some id
      → o ≢ some ""
      → own_organisation_usable c o db ≡ true
      → organisation_is_active c id db ≡ true
  own_is_active none id e ne h = absurd (ground arith)
  own_is_active (some v) id e ne h = ground (arith, eq_true v "")

  minted_find :
      (accessid refreshid : String)
      → find
          (is_session_token c accessid user.lmsuserid)
          (mint_rows c user accessid refreshid db).tokens
        ≡ some (new_row c user accessid refreshid db)
  minted_find accessid refreshid =
      find-mint_rows c user accessid refreshid db accessid ∙ ground (arith, c.matches_refl accessid)

  user_after :
      (accessid refreshid : String)
      → find_user c user.lmsuserid (mint_rows c user accessid refreshid db)
        ≡ find_user c user.lmsuserid db
  unfolding find_user mint_rows save_token destroy_tokens_of_type create_token
  user_after accessid refreshid = refl

  organisation_after :
      (accessid refreshid id : String)
      → find_organisation c id (mint_rows c user accessid refreshid db) ≡ find_organisation c id db
  unfolding find_organisation mint_rows save_token destroy_tokens_of_type create_token
  organisation_after accessid refreshid id = refl

  claims_usable :
      (acting : Option String) (k : OrganisationClaims)
      → IsFresh
      → mint_claims c user held acting db ≡ ok k
      → ((id : String) → acting ≡ some id → organisation_is_active c id db ≡ true)
      → (id : String) → k.organisationid ≡ some id
      → organisation_is_active c id db ≡ true
  claims_usable acting k fresh minted active id e =
      let (made, placed, own) = mint_claims-ok c user held acting db k minted in
      let (plat, asked, home) =
        (organisation_claims_iff user.organisationid (role_ids held) acting k).0 made in
      elim (Bool-cases k.isplatform) [
        | inl p ↦ active id (sym (asked p) ∙ e)
        | inr n ↦ own_is_active user.organisationid id (sym ((home n).0) ∙ e) fresh.placed own
      ]

  minted-IsCurrent :
      (acting : Option String) (k : OrganisationClaims) (accessid refreshid : String)
      → IsFresh
      → mint_claims c user held acting db ≡ ok k
      → ((id : String) → acting ≡ some id → organisation_is_active c id db ≡ true)
      → IsCurrent c accessid user.lmsuserid k (mint_rows c user accessid refreshid db)
  minted-IsCurrent acting k accessid refreshid fresh minted active =
      let (made, placed, own) = mint_claims-ok c user held acting db k minted in
      let (plat, asked, home) =
        (organisation_claims_iff user.organisationid (role_ids held) acting k).0 made in
      record {
        token = new_row c user accessid refreshid db;
        token_found = minted_find accessid refreshid;
        user = user;
        user_found = user_after accessid refreshid ∙ fresh.found;
        enabled = fresh.enabled;
        usable = λ id e.
            let (o, found, live, on) =
              usable_organisation id fresh (claims_usable acting k fresh minted active id e) in
            (o, organisation_after accessid refreshid id ∙ found, live, on);
        staff = λ n. (ground (arith, placed, n), sym ((home n).0));
        platform = λ p. (
          ground (arith, plat, p),
          any_of_contains c superadmin_role user.roleids (fresh.linked (ground (arith, plat, p))),
        );
      }

  -- A token that was just minted, for an enabled user read from the tables and, where it is to act
  -- as an organisation, one that is active, passes the per-request check.
  pub validate-mint :
      (env : Env) (acting : Option String) (k : OrganisationClaims) (accessid refreshid : String)
      → IsFresh
      → mint_claims c user held acting db ≡ ok k
      → ((id : String) → acting ≡ some id → organisation_is_active c id db ≡ true)
      → validate_staff_access_token c
          (access_payload env user held k accessid db)
          (mint_rows c user accessid refreshid db)
        ≡ true
  unfolding validate_staff_access_token
  validate-mint env acting k accessid refreshid fresh minted active =
      rw
        (
          session_claims-access_payload env user held k accessid db fresh.named,
          validate_staff_access_token,
        )
        ((session_is_current_iff c accessid user.lmsuserid k
            (mint_rows c user accessid refreshid db)).1
          (minted-IsCurrent acting k accessid refreshid fresh minted active))

  -- After a mint no other session of the account is left: a token id that the database does not
  -- take for the new one is refused, whatever it claims.
  pub mint-single_session :
      (jti accessid refreshid : String) (k : OrganisationClaims)
      → c.matches accessid jti ≡ false
      → session_is_current c jti user.lmsuserid k (mint_rows c user accessid refreshid db) ≡ false
  mint-single_session jti accessid refreshid k other =
      session_of_no_lookup c jti user.lmsuserid k (mint_rows c user accessid refreshid db)
        (find-mint_rows c user accessid refreshid db jti ∙ ground (arith, other))
