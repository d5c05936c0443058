-- ===== src/Auth/Laws.antt =====
-- Signing in, switching organisation and signing out.
use edtech_lms_api.Prelude.{
  String, true, false, Option, some, List, ◌≡◌, refl, ◌↔◌, not, arith, inl, inr, is_some, contains,
  Option-cases, ◌&&◌, ◌∙◌, sym,
}
use edtech_lms_api.Errors.{Result, ok, err, Failure, >>=-eq-ok}
use edtech_lms_api.Env.{Env}
use edtech_lms_api.Store.{role_ids, Collation, Db, User, RoleRow}
use edtech_lms_api.Session.{OrganisationClaims, organisation_claims}
use edtech_lms_api.Session.Mint.{
  LoginTokens, mint_claims, mint_rows, generate_auth_token, access_payload,
}
use edtech_lms_api.Enums.{superadmin_role}
use edtech_lms_api.Session.Current.{organisation_claims_iff}
use edtech_lms_api.Session.Minted.{mint_claims-ok}
use edtech_lms_api.Auth.{
  LoadedUser, Uuids, login, login_failure, verify_user, get_user_by_email, get_user_by_id,
  is_platform_account, switch_organisation, target_available, in_state,
}

-- A platform account has no organisation and holds Super Admin.
pub is_platform_account-eq :
    (user : User) (held : List RoleRow)
    → is_platform_account user held
      ≡ (not (is_some user.organisationid) && contains (role_ids held) superadmin_role)
unfolding is_platform_account organisation_claims
is_platform_account-eq user held = ground arith

module _ (c : Collation) (env : Env) where
  verify_user-err :
      (user : User) (miscid : String) (db : Db) (e : Failure)
      → (verify_user c env user miscid db).0 ≡ err e
      → e ≡ login_failure
  unfolding verify_user
  verify_user-err user miscid db e h = ground arith

  -- Every refused sign-in gets the same answer, whatever the reason: an unknown address, a wrong
  -- password, an unverified or a disabled account.
  pub login-same_refusal :
      (email password miscid : String) (db : Db) (e : Failure)
      → (login c env email password miscid db).0 ≡ err e
      → e ≡ login_failure
  unfolding login
  login-same_refusal email password miscid db e h =
      elim (Option-cases (get_user_by_email c env email db)) [
        | inl n ↦ ground arith
        | inr (l, found) ↦ ground (arith, verify_user-err l.user miscid db e)
      ]

  -- A sign-in succeeds exactly for the account that the address finds, with its password, verified
  -- and enabled, and it writes nothing.
  pub login_iff :
      (email password miscid : String) (db db' : Db) (l : LoadedUser)
      → (login c env email password miscid db ≡ (ok l, db')) ↔ (
          (get_user_by_email c env email db ≡ some l)
          × (env.verify_password password l.user.lmsuserpasswordhash ≡ true)
          × (l.user.isverified ≡ true)
          × (l.user.isdisabled ≡ false)
          × (db' ≡ db))
  unfolding login verify_user
  login_iff email password miscid db db' l =
      elim (Option-cases (get_user_by_email c env email db)) [
        | inl n ↦ ground arith
        | inr (l', found) ↦ ground arith
      ]

  pub generate_auth_token-ok :
      (l : LoadedUser) (acting : Option String) (a r : String) (db db' : Db) (t : LoginTokens)
      → generate_auth_token c env l.user l.held acting a r db ≡ ok (t, db')
      → (k : OrganisationClaims) × (mint_claims c l.user l.held acting db ≡ ok k)
        × (t.access_token
            ≡ env.sign (access_payload env l.user l.held k a db) env.applicationsecret)
        × (db' ≡ mint_rows c l.user a r db)
  unfolding generate_auth_token
  generate_auth_token-ok l acting a r db db' t h =
      let (k, made, rest) = >>=-eq-ok (mint_claims c l.user l.held acting db) _ h in
      (k, made, ground arith, ground arith)

  pub in_state-ok :
      (m : Result (LoginTokens × Db)) (db db' : Db) (t : LoginTokens)
      → in_state m db ≡ (ok t, db')
      → m ≡ ok (t, db')
  in_state-ok (ok (u, d)) db db' t h = ground arith
  in_state-ok (err e) db db' t h = absurd (ground arith)

  in_state-err :
      (m : Result (LoginTokens × Db)) (db : Db) (e : Failure)
      → (in_state m db).0 ≡ err e
      → (in_state m db).1 ≡ db
  in_state-err (ok (u, d)) db e h = absurd (ground arith)
  in_state-err (err f) db e h = refl

  platform_claims :
      (l : LoadedUser) (acting : Option String) (k : OrganisationClaims)
      → is_platform_account l.user l.held ≡ true
      → organisation_claims l.user.organisationid (role_ids l.held) acting ≡ ok k
      → k ≡ record { organisationid = acting; isplatform = true }
  platform_claims l acting k plat made =
      let is_plat = sym (is_platform_account-eq l.user l.held) ∙ plat in
      let (p, asked, home) =
        (organisation_claims_iff l.user.organisationid (role_ids l.held) acting k).0 made in
      ground (arith, asked (p ∙ is_plat), p ∙ is_plat)

  switch_guards :
      (id : String) (target : Option String) (ids : Uuids) (db db' : Db) (t : LoginTokens)
      (l : LoadedUser)
      → get_user_by_id c env id db ≡ some l
      → switch_organisation c env id target ids db ≡ (ok t, db')
      → (l.user.isdisabled ≡ false)
        × (is_platform_account l.user l.held ≡ true)
        × (target_available c env target db ≡ true)
        × (in_state (generate_auth_token c env l.user l.held target ids.access ids.refresh db) db
            ≡ (ok t, db'))
  unfolding switch_organisation
  switch_guards id target ids db db' t l found h = ground arith

  -- Switching organisation succeeds only for an enabled platform account and an organisation that
  -- is active (or none); the token that it gives is signed over claims that act as the target.
  pub switch_organisation-ok :
      (id : String) (target : Option String) (ids : Uuids) (db db' : Db) (t : LoginTokens)
      → switch_organisation c env id target ids db ≡ (ok t, db')
      → (l : LoadedUser) × (k : OrganisationClaims) × (get_user_by_id c env id db ≡ some l)
        × (l.user.isdisabled ≡ false)
        × (is_platform_account l.user l.held ≡ true)
        × (target_available c env target db ≡ true)
        × (k ≡ record { organisationid = target; isplatform = true })
        × (t.access_token
            ≡ env.sign (access_payload env l.user l.held k ids.access db) env.applicationsecret)
        × (db' ≡ mint_rows c l.user ids.access ids.refresh db)
  unfolding switch_organisation
  switch_organisation-ok id target ids db db' t h =
      elim (Option-cases (get_user_by_id c env id db)) [
        | inl n ↦ absurd (ground arith)
        | inr (l, found) ↦
            let (on, plat, avail, rest) = switch_guards id target ids db db' t l found h in
            let (k, minted, token, rows) =
              generate_auth_token-ok l target ids.access ids.refresh db db' t
                (in_state-ok _ db db' t rest) in
            (
              l,
              k,
              found,
              on,
              plat,
              avail,
              platform_claims l target k plat (mint_claims-ok c l.user l.held target db k minted).0,
              token,
              rows,
            )
      ]

  -- A refused switch changes nothing.
  pub switch_organisation-refused :
      (id : String) (target : Option String) (ids : Uuids) (db : Db) (e : Failure)
      → (switch_organisation c env id target ids db).0 ≡ err e
      → (switch_organisation c env id target ids db).1 ≡ db
  unfolding switch_organisation
  switch_organisation-refused id target ids db e h =
      elim (Option-cases (get_user_by_id c env id db)) [
        | inl n ↦ ground arith
        | inr (l, found) ↦ ground (
          arith,
          in_state-err (generate_auth_token c env l.user l.held target ids.access ids.refresh db) db
              e,
        )
      ]
