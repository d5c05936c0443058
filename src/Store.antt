-- ===== src/Store.antt =====
-- The tables that authentication and authorisation read and write (models/data-models), and the
-- queries made of them. A row is found by the database's own comparison of texts, which is looser
-- than the program's `===`: it is a parameter, of which a collation's laws are assumed.
pub mod Keys
pub mod Transactions
use edtech_lms_api.Prelude.{
  ℕ, String, Bool, true, false, Option, List, ◌∷◌, ◌&&◌, not, ◌≡◌, map, filter, find, if◌then◌else◌,
}
use edtech_lms_api.Js.{Value}
use edtech_lms_api.Errors.{Result, ok, err}

-- The comparison of texts in a WHERE clause.
pub record Collation : Type 0 where
  pub matches : String → String → Bool
  pub matches_refl : (s : String) → matches s s ≡ true
  pub matches_sym : (s t : String) → matches s t ≡ true → matches t s ≡ true
  pub matches_trans :
      (s t u : String) → matches s t ≡ true → matches t u ≡ true → matches s u ≡ true

pub data TokenType : Type 0 where
  access refresh changepassword verifyemail rpiaccess : TokenType

-- The values of the enum, as tokens and the `tokens` table spell them.
abbrev pub type_value : TokenType → String
type_value access = "wUKhn97t"
type_value refresh = "U3cLtVxj"
type_value changepassword = "vW7Ea9Kf"
type_value verifyemail = "2rwjr2UY"
type_value rpiaccess = "ckWtsMgO"

abbrev pub same_type : TokenType → TokenType → Bool
same_type access access = true
same_type refresh refresh = true
same_type changepassword changepassword = true
same_type verifyemail verifyemail = true
same_type rpiaccess rpiaccess = true
same_type _ _ = false

-- A row of `permissions`.
pub record Permission : Type 0 where
  pub permissionid : String
  pub permissionname : String
  pub permissiontitleid : String

-- A row of `permissionstitle`, the groups of permissions; a `type` that is NULL, which is none of
-- the kinds that are asked for, is 0.
pub record PermissionTitle : Type 0 where
  pub permissiontitleid : String
  pub kind : ℕ
  pub parentid : Option String

-- A row of `roles`, with the permissions that `roles_permissions` links to it.
pub record RoleRow : Type 0 where
  pub roleid : String
  pub rolename : String
  pub permissions : List Permission

abbrev pub role_ids : List RoleRow → List String
role_ids rows = map (λ r. r.roleid) rows

pub record Organisation : Type 0 where
  pub organisationid : String
  pub isdeleted : Bool
  pub organisationstatus : Bool

-- A row of `lmsusers`, with the ids of the role rows that `lmsusers_roles` links to it.
pub record User : Type 0 where
  pub lmsuserid : String
  pub lmsusername : String
  pub lmsuserpasswordhash : String
  pub lmsuserrole : String
  pub organisationid : Option String
  pub isdisabled : Bool
  pub isverified : Bool
  pub roleids : List String
  pub firstname : Value
  pub lastname : Value
  pub countries : Value
  pub schools : Value
  pub created_by : Option String
  pub updated_by : Option String

-- A row of `tokens`.
pub record Token : Type 0 where
  pub token : String
  pub lmsuserid : String
  pub tokentype : TokenType

pub record Db : Type 0 where
  pub users : List User
  pub organisations : List Organisation
  pub roles : List RoleRow
  pub permissions : List Permission
  pub titles : List PermissionTitle
  pub tokens : List Token

-- A call that changes the tables and may throw. What was written before a throw stays written.
abbrev pub Action : Type 0 → Type 0
Action A = Db → Result A × Db

abbrev pub settle : {A : Type 0} → Db → Result (A × Db) → Result A × Db
settle db (ok (a, db')) = (ok a, db')
settle db (err e) = (err e, db)

-- A managed transaction: a throw inside it rolls everything back.
abbrev pub transaction : {A : Type 0} → (Db → Result (A × Db)) → Action A
transaction body db = settle db (body db)

module _ (c : Collation) where
  open c use {matches}

  -- `lmsusers.findOne({ where: { lmsuserid } })`
  unfoldable pub find_user : String → Db → Option User
  find_user id db = find (λ u. matches u.lmsuserid id) db.users

  -- `organisations.findOne({ where: { organisationid } })`
  unfoldable pub find_organisation : String → Db → Option Organisation
  find_organisation id db = find (λ o. matches o.organisationid id) db.organisations

  -- `user.save()`: the row of that primary key is replaced.
  unfoldable pub save_user : User → Db → Db
  save_user u db = record db {
    users = map (λ v. if matches v.lmsuserid u.lmsuserid then u else v) db.users;
  }

  -- `lmsusers.create(user)`
  unfoldable pub create_user_row : User → Db → Db
  create_user_row u db = record db { users = u ∷ db.users }

  -- `tokens.destroy({ where: { lmsuserid } })`
  unfoldable pub destroy_tokens : String → Db → Db
  destroy_tokens id db = record db { tokens = filter (λ t. not (matches t.lmsuserid id)) db.tokens }

  -- `tokens.destroy({ where: { lmsuserid, tokentype } })`
  unfoldable pub destroy_tokens_of_type : String → TokenType → Db → Db
  destroy_tokens_of_type id type db = record db {
    tokens = filter (λ t. not (matches t.lmsuserid id && same_type t.tokentype type)) db.tokens;
  }

  -- `tokens.create({ token, lmsuserid, tokentype })`
  unfoldable pub create_token : String → String → TokenType → Db → Db
  create_token jti id type db = record db {
    tokens = record { token = jti; lmsuserid = id; tokentype = type } ∷ db.tokens;
  }

  -- `tokens.findOne({ where: { token, tokentype } })`
  unfoldable pub find_token : String → TokenType → Db → Option Token
  find_token jti type db = find (λ t. matches t.token jti && same_type t.tokentype type) db.tokens
