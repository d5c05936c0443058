-- ===== src/Auth/Refresh.antt =====
-- Refreshing a session, and signing out.
use edtech_lms_api.Prelude.{
  String, ◌≡◌, sym, ◌∙◌, ◌↔◌, inl, inr, Bool, true, false, not, ◌&&◌, Option, some, arith,
  Option-cases, &&_true, IsIn, find-IsIn, find_sound,
}
use edtech_lms_api.Errors.{sign_in_required, Failure, err, ok, coded}
use edtech_lms_api.Env.{Env}
use edtech_lms_api.Js.{Value, str, get}
use edtech_lms_api.Store.{
  Collation, TokenType, type_value, same_type, role_ids, User, Token, Db, destroy_tokens_of_type,
  find_token,
}
use edtech_lms_api.Session.{OrganisationClaims, session_is_current}
use edtech_lms_api.Session.Mint.{
  token_payload, generate_token, LoginTokens, acting_payload, access_payload,
  organisation_is_active, mint_claims, mint_rows, generate_auth_token,
}
use edtech_lms_api.Session.Rows.{session-destroy_access, session-destroy_refresh}
use edtech_lms_api.Session.Current.{organisation_claims_iff}
use edtech_lms_api.Session.Minted.{mint_claims-ok}
use edtech_lms_api.Auth.{
  LoadedUser, is_platform_account, Uuids, claimed_acting, get_user_by_id, verify_user, logout,
  row_of_jti, verify_token, still_acting_organisation, refresh_body, refresh_auth,
}
use edtech_lms_api.Auth.Laws.{is_platform_account-eq, generate_auth_token-ok}

same_type-eq : (s t : TokenType) → same_type s t ≡ true → s ≡ t
same_type-eq s t h = ground arith

module _ (c : Collation) (env : Env) where
  -- Every refused refresh is the same "sign in again".
  pub refresh_auth-same_refusal :
      (refresh_token : String) (ids : Uuids) (db : Db) (e : Failure)
      → (refresh_auth c env refresh_token ids db).0 ≡ err e
      → e ≡ coded sign_in_required
  unfolding refresh_auth
  refresh_auth-same_refusal refresh_token ids db e h = ground arith

  -- A verified token, with the stored row of its id and type.
  pub record IsSignedToken (token : String) (type : TokenType) (db : Db) (row : Token)
      : Type 0 where
    pub payload : Value
    pub signed : env.verify token env.applicationsecret ≡ some payload
    pub jti : String
    pub named : get "jti" payload ≡ str jti
    pub stored : IsIn row db.tokens
    pub of_token : c.matches row.token jti ≡ true
    pub of_type : row.tokentype ≡ type

  row_of_jti-ok :
      (v : Value) (type : TokenType) (db : Db) (row : Token)
      → row_of_jti c env v type db ≡ some row
      → (jti : String) × (v ≡ str jti) × (find_token c jti type db ≡ some row)
  row_of_jti-ok v type db row h = ground arith

  verify_token-ok :
      (token : String) (type : TokenType) (db : Db) (row : Token)
      → verify_token c env token type db ≡ some row
      → IsSignedToken token type db row
  unfolding verify_token find_token
  verify_token-ok token type db row h =
      elim (Option-cases (env.verify token env.applicationsecret)) [
        | inl n ↦ absurd (ground arith)
        | inr (payload, e) ↦
            let (jti, named, found) =
              row_of_jti-ok (get "jti" payload) type db row (ground arith) in
            let test : Token → Bool = λ t. c.matches t.token jti && same_type t.tokentype type in
            let (same, kind) = &&_true _ _ (find_sound test db.tokens found) in
            record {
              payload = payload;
              signed = e;
              jti = jti;
              named = named;
              stored = find-IsIn test db.tokens found;
              of_token = same;
              of_type = same_type-eq row.tokentype type kind;
            }
      ]

  -- A refresh keeps acting as an organisation exactly for a platform account whose token says that
  -- organisation, and while it is active.
  still_acting_organisation_iff :
      (l : LoadedUser) (refresh_token id : String) (db : Db)
      → ((still_acting_organisation c env l refresh_token db).organisationid ≡ some id) ↔ (
          (is_platform_account l.user l.held ≡ true)
          × (claimed_acting (env.decode refresh_token) ≡ some id)
          × (organisation_is_active c id db ≡ true))
  unfolding still_acting_organisation
  still_acting_organisation_iff l refresh_token id db =
      elim (Option-cases (claimed_acting (env.decode refresh_token))) [
        | inl n ↦ ground arith
        | inr (claimed, e) ↦ ground arith
      ]

  verify_user-ok :
      (user : User) (miscid : String) (db db' : Db) (u : Unit {0})
      → verify_user c env user miscid db ≡ (ok u, db')
      → (user.isverified ≡ true) × (user.isdisabled ≡ false) × (db' ≡ db)
  unfolding verify_user
  verify_user-ok user miscid db db' u h = ground arith

  -- The ladder of `refreshAuth`, read back from its success.
  refresh_steps :
      (refresh_token : String) (ids : Uuids) (db db' : Db) (t : LoginTokens) (row : Token)
      (l : LoadedUser)
      → verify_token c env refresh_token TokenType.refresh db ≡ some row
      → get_user_by_id c env row.lmsuserid db ≡ some l
      → refresh_auth c env refresh_token ids db ≡ (ok t, db')
      → (l.user.isverified ≡ true)
        × (l.user.isdisabled ≡ false)
        × (generate_auth_token c env l.user l.held
              (still_acting_organisation c env l refresh_token db).organisationid
              ids.access
              ids.refresh
              db
            ≡ ok (t, db'))
  unfolding refresh_auth refresh_body verify_user
  refresh_steps refresh_token ids db db' t row l fr fl h = ground arith

  refresh_found :
      (refresh_token : String) (ids : Uuids) (db db' : Db) (t : LoginTokens)
      → refresh_auth c env refresh_token ids db ≡ (ok t, db')
      → (row : Token) × (l : LoadedUser) × (verify_token c env refresh_token TokenType.refresh db
          ≡ some row)
        × (get_user_by_id c env row.lmsuserid db ≡ some l)
  unfolding refresh_auth refresh_body
  refresh_found refresh_token ids db db' t h =
      elim (Option-cases (verify_token c env refresh_token TokenType.refresh db)) [
        | inl n ↦ absurd (ground arith)
        | inr (row, fr) ↦ elim (Option-cases (get_user_by_id c env row.lmsuserid db)) [
          | inl n ↦ absurd (ground arith)
          | inr (l, fl) ↦ (row, l, fr, fl)
        ]
      ]

  refresh_token-ok :
      (l : LoadedUser) (acting : Option String) (a r : String) (db db' : Db) (t : LoginTokens)
      (k : OrganisationClaims)
      → mint_claims c l.user l.held acting db ≡ ok k
      → generate_auth_token c env l.user l.held acting a r db ≡ ok (t, db')
      → t.refresh_token
        ≡ env.sign
            (token_payload env l.user.lmsuserid env.refreshexpirationminutes
              (acting_payload k)
              (type_value TokenType.refresh)
              r)
            env.applicationsecret
  unfolding generate_auth_token generate_token
  refresh_token-ok l acting a r db db' t k made h = ground arith

  -- A refresh succeeds only for a signed token with a stored refresh row, whose account is verified
  -- and enabled. The access token that it gives is signed over claims read from the account as it
  -- is now: a platform account acts as an organisation exactly where the refresh token says that
  -- organisation and it is active, and any other account as its own. The new refresh token carries
  -- the organisation acted as. Only the rows of the new tokens are written.
  pub refresh_auth-ok :
      (refresh_token : String) (ids : Uuids) (db db' : Db) (t : LoginTokens)
      → refresh_auth c env refresh_token ids db ≡ (ok t, db')
      → (row : Token) × (l : LoadedUser) × (k : OrganisationClaims) × IsSignedToken refresh_token
          TokenType.refresh db row
        × (get_user_by_id c env row.lmsuserid db ≡ some l)
        × (l.user.isverified ≡ true)
        × (l.user.isdisabled ≡ false)
        × (k.isplatform ≡ is_platform_account l.user l.held)
        × (k.isplatform ≡ false → k.organisationid ≡ l.user.organisationid)
        × ((id : String)
            → k.isplatform ≡ true
            → (k.organisationid ≡ some id) ↔ (
                (claimed_acting (env.decode refresh_token) ≡ some id)
                × (organisation_is_active c id db ≡ true)))
        × (t.access_token
            ≡ env.sign (access_payload env l.user l.held k ids.access db) env.applicationsecret)
        × (t.refresh_token
            ≡ env.sign
                (token_payload env l.user.lmsuserid env.refreshexpirationminutes
                  (acting_payload k)
                  (type_value TokenType.refresh)
                  ids.refresh)
                env.applicationsecret)
        × (db' ≡ mint_rows c l.user ids.access ids.refresh db)
  refresh_auth-ok refresh_token ids db db' t h =
      let (row, l, fr, fl) = refresh_found refresh_token ids db db' t h in
      let (verified, on, minted) = refresh_steps refresh_token ids db db' t row l fr fl h in
      let acting = (still_acting_organisation c env l refresh_token db).organisationid in
      let (k, claims, token, rows) =
        generate_auth_token-ok c env l acting ids.access ids.refresh db db' t minted in
      let (made, placed, own) = mint_claims-ok c l.user l.held acting db k claims in
      let (plat, asked, home) =
        (organisation_claims_iff l.user.organisationid (role_ids l.held) acting k).0 made in
      let same = plat ∙ sym (is_platform_account-eq l.user l.held) in
      let acts = still_acting_organisation_iff l refresh_token in
      (
        row,
        l,
        k,
        verify_token-ok refresh_token TokenType.refresh db row fr,
        fl,
        verified,
        on,
        same,
        (λ p. (home p).0),
        (λ id p. (
          (λ e. let (plat, says, active) = (acts id db).0 (sym (asked p) ∙ e) in (says, active)),
          (λ (says, active). asked p ∙ (acts id db).1 (sym same ∙ p, says, active)),
        )),
        token,
        refresh_token-ok l acting ids.access ids.refresh db db' t k claims minted,
        rows,
      )

  -- Signing out ends every session of the account, and leaves those of other accounts as they were.
  pub session-logout :
      (jti userid id : String) (k : OrganisationClaims) (db : Db)
      → session_is_current c jti userid k (logout c env id db)
        ≡ (not (c.matches userid id) && session_is_current c jti userid k db)
  unfolding logout
  session-logout jti userid id k db =
      session-destroy_refresh c jti userid id k (destroy_tokens_of_type c id TokenType.access db)
      ∙ session-destroy_access c jti userid id k db
