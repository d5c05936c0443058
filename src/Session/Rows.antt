-- ===== src/Session/Rows.antt =====
-- What the writes to `tokens` do to the sessions of an account and of the others.
use edtech_lms_api.Prelude.{
  String, Bool, true, false, none, some, List, ◌≡◌, not, find, arith, inl, inr, Bool-cases,
  if◌then◌else◌, ◌∷◌, find-filter-none, find-filter_keep, ◌&&◌, ◌∙◌, filter,
}
use edtech_lms_api.Store.{
  Collation, Db, User, Token, TokenType, same_type, find_user, destroy_tokens,
  destroy_tokens_of_type, create_token,
}
use edtech_lms_api.Session.{
  OrganisationClaims, is_session_token, session_is_current, staff_session_query,
  is_staff_session_current,
}
use edtech_lms_api.Session.Mint.{mint_rows, save_token}

module _ (c : Collation) where
  open c use {matches, matches_refl, matches_sym, matches_trans}

  -- Two tables that answer the query's token lookup alike, and differ in `tokens` only, have the
  -- same sessions.
  session_of_same_lookup :
      (jti userid : String) (k : OrganisationClaims) (db : Db) (ts : List Token)
      → find (is_session_token c jti userid) ts ≡ find (is_session_token c jti userid) db.tokens
      → session_is_current c jti userid k (record db { tokens = ts })
        ≡ session_is_current c jti userid k db
  unfolding session_is_current staff_session_query find_user
  session_of_same_lookup jti userid k db ts e = rw (e, staff_session_query)

  pub session_of_no_lookup :
      (jti userid : String) (k : OrganisationClaims) (db : Db)
      → find (is_session_token c jti userid) db.tokens ≡ none
      → session_is_current c jti userid k db ≡ false
  unfolding session_is_current staff_session_query is_staff_session_current
  session_of_no_lookup jti userid k db e = rw (e, staff_session_query)

  pub token_of_user :
      (jti userid : String) (t : Token)
      → is_session_token c jti userid t ≡ true
      → matches t.lmsuserid userid ≡ true
  token_of_user jti userid t h = ground arith

  pub token_is_access :
      (jti userid : String) (t : Token)
      → is_session_token c jti userid t ≡ true
      → same_type t.tokentype TokenType.access ≡ true
  token_is_access jti userid t h = ground arith

  token_is_jti :
      (jti userid : String) (t : Token)
      → is_session_token c jti userid t ≡ true
      → matches t.token jti ≡ true
  token_is_jti jti userid t h = ground arith

  -- Ending the sessions of the account `id` ends every session of an account that this id finds,
  -- and no session of any other.
  pub session-destroy_tokens :
      (jti userid id : String) (k : OrganisationClaims) (db : Db)
      → session_is_current c jti userid k (destroy_tokens c id db)
        ≡ (not (matches userid id) && session_is_current c jti userid k db)
  unfolding destroy_tokens
  session-destroy_tokens jti userid id k db = elim (Bool-cases (matches userid id)) [
    | inl own ↦
        session_of_no_lookup jti userid k (destroy_tokens c id db) (
          find-filter-none (λ t. not (matches t.lmsuserid id)) (is_session_token c jti userid)
            db.tokens
            (λ t h.
              ground
                (arith, token_of_user jti userid t h, matches_trans t.lmsuserid userid id, own)))
        ∙ ground (arith, own)
    | inr other ↦
        session_of_same_lookup jti userid k db _ (
          find-filter_keep (λ t. not (matches t.lmsuserid id)) (is_session_token c jti userid)
            db.tokens
            (λ t h. ground (
              arith,
              token_of_user jti userid t h,
              matches_sym t.lmsuserid userid,
              matches_trans userid t.lmsuserid id,
              other,
            )))
        ∙ ground (arith, other)
  ]

  access_not_refresh :
      (t : Token)
      → same_type t.tokentype TokenType.access ≡ true
      → same_type t.tokentype TokenType.refresh ≡ false
  access_not_refresh t h = ground arith

  -- Clearing the access tokens of an account ends its sessions; clearing another kind ends none.
  pub session-destroy_access :
      (jti userid id : String) (k : OrganisationClaims) (db : Db)
      → session_is_current c jti userid k (destroy_tokens_of_type c id TokenType.access db)
        ≡ (not (matches userid id) && session_is_current c jti userid k db)
  unfolding destroy_tokens_of_type
  session-destroy_access jti userid id k db = elim (Bool-cases (matches userid id)) [
    | inl own ↦
        session_of_no_lookup jti userid k (destroy_tokens_of_type c id TokenType.access db) (
          find-filter-none
            (λ t. not (matches t.lmsuserid id && same_type t.tokentype TokenType.access))
            (is_session_token c jti userid) db.tokens
            (λ t h. ground (
              arith,
              token_of_user jti userid t h,
              token_is_access jti userid t h,
              matches_trans t.lmsuserid userid id,
              own,
            )))
        ∙ ground (arith, own)
    | inr other ↦
        session_of_same_lookup jti userid k db _ (
          find-filter_keep
            (λ t. not (matches t.lmsuserid id && same_type t.tokentype TokenType.access))
            (is_session_token c jti userid) db.tokens
            (λ t h. ground (
              arith,
              token_of_user jti userid t h,
              matches_sym t.lmsuserid userid,
              matches_trans userid t.lmsuserid id,
              other,
            )))
        ∙ ground (arith, other)
  ]

  pub session-destroy_refresh :
      (jti userid id : String) (k : OrganisationClaims) (db : Db)
      → session_is_current c jti userid k (destroy_tokens_of_type c id TokenType.refresh db)
        ≡ session_is_current c jti userid k db
  unfolding destroy_tokens_of_type
  session-destroy_refresh jti userid id k db = session_of_same_lookup jti userid k db _ (
      find-filter_keep
        (λ t. not (matches t.lmsuserid id && same_type t.tokentype TokenType.refresh))
        (is_session_token c jti userid) db.tokens
        (λ t h. ground (arith, token_is_access jti userid t h, access_not_refresh t)))

  -- The token lookup after a mint: the new access row for the new id, and nothing for any other id
  -- of that account.
  module _ (user : User) (accessid refreshid : String) (db : Db) where
    abbrev pub new_row : Token
    new_row = record { token = accessid; lmsuserid = user.lmsuserid; tokentype = TokenType.access }

    abbrev is_of_type : TokenType → Token → Bool
    is_of_type type t = matches t.lmsuserid user.lmsuserid && same_type t.tokentype type

    pub find-mint_rows :
        (jti : String)
        → find
            (is_session_token c jti user.lmsuserid)
            (mint_rows c user accessid refreshid db).tokens
          ≡ (if matches accessid jti then some new_row else none)
    unfolding mint_rows save_token create_token destroy_tokens_of_type
    find-mint_rows jti =
        let q = is_session_token c jti user.lmsuserid in
        let cleared =
          filter (λ t. not (is_of_type TokenType.access t))
            (filter (λ t. not (is_of_type TokenType.refresh t)) db.tokens) in
        let b = filter (λ t. not (is_of_type TokenType.access t)) cleared in
        let no_other : find q b ≡ none =
          find-filter-none (λ t. not (is_of_type TokenType.access t)) q cleared
            (λ t h. ground (
              arith,
              token_of_user jti user.lmsuserid t h,
              token_is_access jti user.lmsuserid t h,
            )) in
        let kept =
          find-filter_keep (λ t. not (is_of_type TokenType.refresh t)) q (new_row ∷ b)
            (λ t h. ground (arith, access_not_refresh t, token_is_access jti user.lmsuserid t h)) in
        ground (arith, no_other, kept, matches_refl user.lmsuserid)
