-- ===== src/Env.antt =====
-- What the program calls and does not implement: signing and reading tokens (jsonwebtoken), hashing
-- passwords (bcrypt), the clock, and its configuration.
use edtech_lms_api.Prelude.{ℕ, String, Bool, Option}
use edtech_lms_api.Js.{Value}

pub record Env : Type 0 where
  -- `sign(payload, secret)`
  pub sign : Value → String → String
  -- `verify(token, secret)`: the payload, or nothing where it is an error
  pub verify : String → String → Option Value
  -- `decode(token)`, with no check of the signature
  pub decode : String → Option Value
  -- `hashPassword`
  pub hash_password : String → String
  -- `verifyPassword(password, hash)`
  pub verify_password : String → String → Bool
  -- `new Date().getTime() / 1000`
  pub issued_at : Value
  -- the same, so many minutes later
  pub expires_at : ℕ → Value
  -- `isLocalEnv`
  pub is_local : Bool
  -- `Config.fortyk.api`
  pub applicationsecret : String
  pub accessexpirationminutes : ℕ
  pub refreshexpirationminutes : ℕ
  pub changepasswordexpirationminutes : ℕ
