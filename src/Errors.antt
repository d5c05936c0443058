-- ===== src/Errors.antt =====
-- What a call may throw (models/ApiError.ts, models/enums/errorcode.enum.ts and the exceptions of
-- the web framework), and the result of a fallible call.
use edtech_lms_api.Prelude.{String, Bool, true, false, Option, none, some, ◌≡◌, refl, ◌⊎◌, inl, inr}

pub data ErrorCode : Type 0 where
  login_failed sign_in_required not_allowed not_found invalid_input already_exists : ErrorCode
  file_rejected too_many_attempts service_unavailable bad_gateway internal : ErrorCode

-- `api` is an ApiError: its code, its message where one is given (else the catalogue's), and the
-- field and text of the one entry of its `fields`, where it has one.
pub data Failure : Type 0 where
  api : ErrorCode → Option String → Option (String × String) → Failure
  unauthorized forbidden : Failure
  payload_too_large : String → Failure
  plain : String → Failure

-- What a call gives back: the failure that it throws, or its value.
pub data Result {ℓ} (T : Type ℓ) : Type ℓ where
  err : Failure → Result T
  ok : T → Result T

-- The rest of a body runs on the value of a call that returns.
infixl 5 ◌>>=◌
abbrev pub ◌>>=◌ {ℓ κ} : {T : Type ℓ} {R : Type κ} → Result T → (T → Result R) → Result R
err failure >>= rest = err failure
ok value >>= rest = rest value

-- A check that gives nothing back, then the rest of a body.
infixl 5 ◌>>◌
abbrev pub ◌>>◌ {ℓ} : {R : Type ℓ} → Result (Unit {0}) → Result R → Result R
check >> rest = check >>= λ done. rest

-- `if (refused) throw e;`
abbrev pub throw_if : Bool → Failure → Result (Unit {0})
throw_if true e = err e
throw_if false e = ok tt

abbrev pub or_throw {ℓ} : {A : Type ℓ} → Option A → Failure → Result A
or_throw none e = err e
or_throw (some a) e = ok a

-- An ApiError with no message of its own.
abbrev pub coded : ErrorCode → Failure
coded code = api code none none

abbrev pub saying : ErrorCode → String → Failure
saying code message = api code (some message) none

-- The 400 that names one field.
abbrev pub invalid_field : String → String → Failure
invalid_field name message =
    api invalid_input (some "Some of the information isn't valid.") (some (name, message))

-- A body that returns has run its first call to a value, and its rest on that.
pub >>=-eq-ok {ℓ κ} :
    {T : Type ℓ} {R : Type κ} (call : Result T) (rest : T → Result R) {last : R}
    → (call >>= rest) ≡ ok last
    → (value : T) × (call ≡ ok value) × (rest value ≡ ok last)
>>=-eq-ok (err failure) rest returned = cc
>>=-eq-ok (ok value) rest returned = (value, refl, returned)

pub throw_if-eq-ok : (t : Bool) (e : Failure) {u : Unit {0}} → throw_if t e ≡ ok u → t ≡ false
throw_if-eq-ok true e h = cc
throw_if-eq-ok false e h = refl

pub ok-injective : {A : Type 0} {a b : A} → ok a ≡ ok b → a ≡ b
ok-injective h = cc

abbrev pub is_ok {ℓ} : {A : Type ℓ} → Result A → Bool
is_ok (ok a) = true
is_ok (err e) = false

pub Result-cases {ℓ} :
    {A : Type ℓ} (r : Result A) → ((e : Failure) × (r ≡ err e)) ⊎ ((a : A) × (r ≡ ok a))
Result-cases (ok a) = inr (a, refl)
Result-cases (err e) = inl (e, refl)

-- A chain of checks that returned has passed each.
pub >>-eq-ok {ℓ} :
    {B : Type ℓ} (m : Result (Unit {0})) (k : Result B) {b : B}
    → (m >> k) ≡ ok b
    → (m ≡ ok tt) × (k ≡ ok b)
>>-eq-ok (ok tt) k h = (refl, h)
>>-eq-ok (err e) k h = cc
