-- ===== src/Tests/Sessions.antt =====
-- Signing in, refreshing and switching, on the small organisation.
use edtech_lms_api.Prelude.{
  String, ◌≡◌, refl, ap, ◌↔◌, inr, true, false, none, some, [], ◌∷◌, arith, ◌==◌, contains,
}
use edtech_lms_api.Tests.{
  exact, env, teacher_row, alice, bob, organisation_row, db, loaded_alice, ids,
}
use edtech_lms_api.Errors.{ok}
use edtech_lms_api.Env.{Env}
use edtech_lms_api.Js.{Value, null, bool, str, obj, end, field, get_field, get}
use edtech_lms_api.Store.{TokenType, type_value, Token, Db, find_user, find_token}
use edtech_lms_api.Session.{
  OrganisationClaims, organisation_claims, yes_value, same_text, is_staff_session_current,
  joined_row, staff_session_query, session_is_current, validate_staff_access_token,
}
use edtech_lms_api.Session.Mint.{
  token_payload, generate_token, LoginTokens, acting_payload, access_payload,
  organisation_is_active, mint_claims, mint_rows, generate_auth_token,
}
use edtech_lms_api.Session.Current.{IsCurrent, session_is_current_iff}
use edtech_lms_api.Session.Minted.{IsFresh, validate-mint, mint-single_session}
use edtech_lms_api.Strategy.{validate_access}
use edtech_lms_api.Strategy.Laws.{validate_access_iff}
use edtech_lms_api.Strategy.Sessions.{IsStaffSession}
use edtech_lms_api.Claims.{is_hex, fits_shape, is_uuid_text}
use edtech_lms_api.Auth.{
  LoadedUser, is_platform_account, claimed_acting, get_user_by_id, get_user_by_email, verify_user,
  login, verify_token, still_acting_organisation, refresh_body, refresh_auth, target_available,
  switch_organisation,
}
use edtech_lms_api.Auth.Laws.{login_iff, switch_organisation-ok}
use edtech_lms_api.Auth.Refresh.{IsSignedToken, refresh_auth-ok}

abbrev bobs_claims : OrganisationClaims
bobs_claims = record { organisationid = some "o1"; isplatform = false }

abbrev alices_claims : OrganisationClaims
alices_claims = record { organisationid = some "o1"; isplatform = true }

session_is_current_iff_example : IsCurrent exact "a2" "u2" bobs_claims db
unfolding session_is_current staff_session_query joined_row find_user is_staff_session_current
    yes_value ◌==◌ contains
session_is_current_iff_example = (session_is_current_iff exact "a2" "u2" bobs_claims db).0 refl

bob_is_fresh : IsFresh exact bob (teacher_row ∷ []) db
unfolding ◌==◌ find_user contains
bob_is_fresh = record {
  named = refl;
  found = refl;
  enabled = refl;
  linked = λ h. absurd (ground arith);
  placed = λ h. absurd (ground (arith, ap (λ o. same_text o (some "")) h));
  keyed = (refl, tt);
}

validate-mint_example :
    validate_staff_access_token exact
      (access_payload env bob (teacher_row ∷ []) bobs_claims "a9" db)
      (mint_rows exact bob "a9" "r9" db)
    ≡ true
unfolding mint_claims organisation_claims organisation_is_active ◌==◌ contains
validate-mint_example =
    validate-mint exact bob (teacher_row ∷ []) db env none bobs_claims "a9" "r9" bob_is_fresh refl
      (λ id h. absurd (ground arith))

mint-single_session_example :
    session_is_current exact "a2" "u2" bobs_claims (mint_rows exact bob "a9" "r9" db) ≡ false
unfolding ◌==◌
mint-single_session_example =
    mint-single_session exact bob (teacher_row ∷ []) db "a2" "a9" "r9" bobs_claims refl

-- The payload of an access token of the platform account.
abbrev alices_payload : Value
alices_payload = obj (
    field "jti" (str "a1") (
      field "lmsuserid" (str "u1")
        (field "organisationid" null (field "isplatform" (bool true) end))))

alice-IsCurrent : IsCurrent exact "a1" "u1" (record { organisationid = none; isplatform = true }) db
unfolding session_is_current staff_session_query joined_row find_user is_staff_session_current
    yes_value ◌==◌ contains
alice-IsCurrent = (session_is_current_iff exact "a1" "u1" _ db).0 refl

alice_says : IsStaffSession exact alices_payload db
unfolding ◌==◌ get get_field
alice_says = record {
  no_school_user = refl;
  session = record {
    jti = "a1";
    lmsuserid = "u1";
    claims = record { organisationid = none; isplatform = true };
  };
  says = record {
    said_jti = refl;
    said_user = refl;
    named = refl;
    said_organisation = refl;
    said_platform = refl;
  };
  shaped = λ id h. absurd (ground arith);
  current = alice-IsCurrent;
}

validate_access_iff_example : validate_access exact alices_payload db ≡ ok alices_payload
validate_access_iff_example =
    (validate_access_iff exact alices_payload alices_payload db).1 (refl, inr alice_says)

login_iff_example : login exact env "alice@example.org" "open" "m" db ≡ (ok loaded_alice, db)
unfolding ◌==◌ get_user_by_email contains
login_iff_example =
    (login_iff exact env "alice@example.org" "open" "m" db db loaded_alice).1
      (refl, refl, refl, refl, refl)

abbrev switched : LoginTokens
switched = record { access_token = "signed"; refresh_token = "signed" }

switch_organisation-ok_example :
    (l : LoadedUser) × (k : OrganisationClaims) × (get_user_by_id exact env "u1" db ≡ some l)
    × (l.user.isdisabled ≡ false)
    × (is_platform_account l.user l.held ≡ true)
    × (target_available exact env (some "o1") db ≡ true)
    × (k ≡ record { organisationid = some "o1"; isplatform = true })
    × ("signed" ≡ env.sign (access_payload env l.user l.held k "a9" db) env.applicationsecret)
    × (mint_rows exact alice "a9" "r9" db ≡ mint_rows exact l.user "a9" "r9" db)
unfolding ◌==◌ switch_organisation get_user_by_id find_user contains is_platform_account
    organisation_claims organisation_is_active generate_auth_token mint_claims generate_token
switch_organisation-ok_example =
    switch_organisation-ok exact env "u1" (some "o1") ids db (mint_rows exact alice "a9" "r9" db)
      switched refl

-- An organisation that the platform account acts as.
abbrev acted : String
acted = "0b5c2a1e-7d44-4c1f-9a56-3f0c8e2d7b90"

abbrev acting_db : Db
acting_db = record db { organisations = record organisation_row { organisationid = acted } ∷ [] }

abbrev acting_env : Env
acting_env = record env {
  decode = λ token. some (obj (field "actingorganisationid" (str acted) end));
}

refresh_auth-ok_example :
    (row : Token) × (l : LoadedUser) × (k : OrganisationClaims) × IsSignedToken exact acting_env
      "r1" TokenType.refresh acting_db row
    × (get_user_by_id exact acting_env row.lmsuserid acting_db ≡ some l)
    × (l.user.isverified ≡ true)
    × (l.user.isdisabled ≡ false)
    × (k.isplatform ≡ is_platform_account l.user l.held)
    × (k.isplatform ≡ false → k.organisationid ≡ l.user.organisationid)
    × ((id : String)
        → k.isplatform ≡ true
        → (k.organisationid ≡ some id) ↔ (
            (claimed_acting (acting_env.decode "r1") ≡ some id)
            × (organisation_is_active exact id acting_db ≡ true)))
    × ("signed"
        ≡ acting_env.sign
            (access_payload acting_env l.user l.held k "a9" acting_db)
            acting_env.applicationsecret)
    × ("signed"
        ≡ acting_env.sign
            (token_payload acting_env l.user.lmsuserid acting_env.refreshexpirationminutes
              (acting_payload k)
              (type_value TokenType.refresh)
              "r9")
            acting_env.applicationsecret)
    × (mint_rows exact alice "a9" "r9" acting_db ≡ mint_rows exact l.user "a9" "r9" acting_db)
unfolding ◌==◌ refresh_auth refresh_body verify_token get get_field find_token get_user_by_id
    find_user verify_user contains still_acting_organisation is_platform_account organisation_claims
    is_uuid_text fits_shape is_hex organisation_is_active generate_auth_token mint_claims
    generate_token
refresh_auth-ok_example =
    refresh_auth-ok exact acting_env "r1" ids acting_db (mint_rows exact alice "a9" "r9" acting_db)
      switched refl
