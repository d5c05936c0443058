-- ===== src/Strategy/Sessions.antt =====
-- The two kinds of payload that the access strategy accepts, property by property.
use edtech_lms_api.Prelude.{
  String, ◌≡◌, refl, ap, ◌∙◌, ◌↔◌, ◌⊎◌, inl, inr, Bool, true, false, ◌&&◌, some, List, [], ◌∷◌,
  arith, Option-cases, &&_true, is_some, find, IsIn, find-IsIn, find_sound,
}
use edtech_lms_api.Js.{Value, undefined, null, bool, num, str, arr, obj, get, is_object, is_present}
use edtech_lms_api.Errors.{ok}
use edtech_lms_api.Claims.{
  is_uuid_text, has_organisation_claims, has_school_user_id, is_mixed_shape,
}
use edtech_lms_api.Store.{Collation, TokenType, same_type, Token, Db, find_token}
use edtech_lms_api.Session.{SessionClaims, validate_staff_access_token}
use edtech_lms_api.Session.Current.{IsCurrent}
use edtech_lms_api.Session.Payloads.{Says, validate_staff_access_token_iff}
use edtech_lms_api.Strategy.{is_staff_school_role, token_exists}

module _ (c : Collation) where
  -- A school user's payload, with no claim of a staff token, whose id has an access token row.
  pub record IsSchoolSession (payload : Value) (db : Db) : Type 0 where
    pub school_user : is_present (get "schooluserid" payload) ≡ true
    pub no_staff_user : get "lmsuserid" payload ≡ undefined
    pub no_organisation : get "organisationid" payload ≡ undefined
    pub no_platform : get "isplatform" payload ≡ undefined
    pub jti : String
    pub named : get "jti" payload ≡ str jti
    pub row : Token
    pub stored : IsIn row db.tokens
    pub of_token : c.matches row.token jti ≡ true
    pub of_access : row.tokentype ≡ TokenType.access
    pub staff_role :
        (get "schooluserrole" payload ≡ num 1)
        ⊎ ((get "schooluserrole" payload ≡ num 2) ⊎ (get "schooluserrole" payload ≡ num 3))

  -- A staff payload that says the claims of a session that is good now, with a uuid where it
  -- claims an organisation.
  pub record IsStaffSession (payload : Value) (db : Db) : Type 0 where
    pub no_school_user : is_present (get "schooluserid" payload) ≡ false
    pub session : SessionClaims
    pub says : Says payload session
    pub shaped : (id : String) → session.claims.organisationid ≡ some id → is_uuid_text id ≡ true
    pub current : IsCurrent c session.jti session.lmsuserid session.claims db

  present-IsObject :
      (k : String) (payload : Value) → is_present (get k payload) ≡ true → is_object payload ≡ true
  unfolding get
  present-IsObject k payload h = ground arith

  school_payload_iff :
      (payload : Value)
      → ((is_mixed_shape payload ≡ false) × (has_school_user_id payload ≡ true)) ↔ (
          (is_present (get "schooluserid" payload) ≡ true)
          × (get "lmsuserid" payload ≡ undefined)
          × (get "organisationid" payload ≡ undefined)
          × (get "isplatform" payload ≡ undefined))
  unfolding is_mixed_shape has_school_user_id
  school_payload_iff payload = ground (arith, present-IsObject "schooluserid" payload)

  staff_role_iff :
      (v : Value) → (is_staff_school_role v ≡ true) ↔ ((v ≡ num 1) ⊎ ((v ≡ num 2) ⊎ (v ≡ num 3)))
  staff_role_iff v = ground arith

  same_type-access : (t : TokenType) → same_type t TokenType.access ≡ true → t ≡ TokenType.access
  same_type-access t h = ground arith

  find_of_row :
      (p : Token → Bool) (row : Token) (ts : List Token)
      → IsIn row ts
      → p row ≡ true
      → is_some (find p ts) ≡ true
  find_of_row p row [] m h = absurd m
  find_of_row p row (t ∷ ts) (inl e) h = ground (arith, ap p e ∙ h)
  find_of_row p row (t ∷ ts) (inr m) h = ground (arith, find_of_row p row ts m h)

  -- A token exists exactly when its id is a text and a row of that text and type is stored.
  token_exists_sound :
      (v : Value) (db : Db)
      → token_exists c v TokenType.access db ≡ ok true
      → (jti : String) × (v ≡ str jti)
        × ((row : Token) × IsIn row db.tokens
            × (c.matches row.token jti ≡ true)
            × (row.tokentype ≡ TokenType.access))
  unfolding find_token
  token_exists_sound (str jti) db h =
      let test : Token → Bool =
        λ t. c.matches t.token jti && same_type t.tokentype TokenType.access in
      elim (Option-cases (find test db.tokens)) [
        | inl n ↦ absurd (ground arith)
        | inr (row, found) ↦
            let (same, type) = &&_true _ _ (find_sound test db.tokens found) in
            (
              jti,
              refl,
              (row, find-IsIn test db.tokens found, same, same_type-access row.tokentype type),
            )
      ]
  token_exists_sound undefined db h = absurd (ground arith)
  token_exists_sound null db h = absurd (ground arith)
  token_exists_sound (bool b) db h = absurd (ground arith)
  token_exists_sound (num n) db h = absurd (ground arith)
  token_exists_sound (arr vs) db h = absurd (ground arith)
  token_exists_sound (obj fs) db h = absurd (ground arith)

  token_exists_complete :
      (v : Value) (jti : String) (row : Token) (db : Db)
      → v ≡ str jti
      → IsIn row db.tokens
      → c.matches row.token jti ≡ true
      → row.tokentype ≡ TokenType.access
      → token_exists c v TokenType.access db ≡ ok true
  unfolding find_token
  token_exists_complete v jti row db e i same type =
      ap (λ w. token_exists c w TokenType.access db) e
      ∙ ap ok (
          find_of_row (λ t. c.matches t.token jti && same_type t.tokentype TokenType.access) row
            db.tokens i (rw (same, type) refl))

  organisation_claims_said :
      (payload : Value) (s : SessionClaims)
      → Says payload s
      → (has_organisation_claims payload ≡ true)
        ↔ ((id : String) → s.claims.organisationid ≡ some id → is_uuid_text id ≡ true)
  unfolding has_organisation_claims get
  organisation_claims_said payload s says = elim (Option-cases s.claims.organisationid) [
    | inl n ↦ ground (arith, says.said_organisation, says.said_platform)
    | inr (id, n) ↦ (
      (λ h other e. ground (arith, says.said_organisation, says.said_platform)),
      λ shaped. ground (arith, says.said_organisation, says.said_platform, shaped id n),
    )
  ]

  pub IsSchoolSession-iff :
      (payload : Value) (db : Db)
      → IsSchoolSession payload db ↔ (
          (is_mixed_shape payload ≡ false)
          × (has_school_user_id payload ≡ true)
          × (token_exists c (get "jti" payload) TokenType.access db ≡ ok true)
          × (is_staff_school_role (get "schooluserrole" payload) ≡ true))
  IsSchoolSession-iff payload db = (
    (λ s.
        let (pure, school) =
          (school_payload_iff payload).1
            (s.school_user, s.no_staff_user, s.no_organisation, s.no_platform) in
        (
          pure,
          school,
          token_exists_complete (get "jti" payload) s.jti s.row db s.named s.stored s.of_token
              s.of_access,
          (staff_role_iff (get "schooluserrole" payload)).1 s.staff_role,
        )),
    (λ (pure, school, there, role).
        let (user, staff, organisation, plat) = (school_payload_iff payload).0 (pure, school) in
        let (jti, named, (row, stored, same, type)) =
          token_exists_sound (get "jti" payload) db there in
        record {
          school_user = user;
          no_staff_user = staff;
          no_organisation = organisation;
          no_platform = plat;
          jti = jti;
          named = named;
          row = row;
          stored = stored;
          of_token = same;
          of_access = type;
          staff_role = (staff_role_iff (get "schooluserrole" payload)).0 role;
        }),
  )

  staff_shape :
      (payload : Value)
      → is_object payload ≡ true
      → (has_school_user_id payload ≡ false) ↔ (is_present (get "schooluserid" payload) ≡ false)
  unfolding has_school_user_id
  staff_shape payload h = ground arith

  unmixed : (payload : Value) → has_school_user_id payload ≡ false → is_mixed_shape payload ≡ false
  unfolding is_mixed_shape
  unmixed payload h = ground arith

  claims-IsObject :
      (payload : Value) → has_organisation_claims payload ≡ true → is_object payload ≡ true
  unfolding has_organisation_claims
  claims-IsObject payload h = ground arith

  pub IsStaffSession-iff :
      (payload : Value) (db : Db)
      → IsStaffSession payload db ↔ (
          (is_mixed_shape payload ≡ false)
          × (has_school_user_id payload ≡ false)
          × (has_organisation_claims payload ≡ true)
          × (validate_staff_access_token c payload db ≡ true))
  IsStaffSession-iff payload db = (
    (λ s.
        let claimed = (organisation_claims_said payload s.session s.says).1 s.shaped in
        let staff = (staff_shape payload (claims-IsObject payload claimed)).1 s.no_school_user in
        (
          unmixed payload staff,
          staff,
          claimed,
          (validate_staff_access_token_iff c payload db).1 (s.session, s.says, s.current),
        )),
    (λ (pure, staff, claimed, good).
        let (k, says, current) = (validate_staff_access_token_iff c payload db).0 good in
        record {
          no_school_user = (staff_shape payload (claims-IsObject payload claimed)).0 staff;
          session = k;
          says = says;
          shaped = (organisation_claims_said payload k says).0 claimed;
          current = current;
        }),
  )
