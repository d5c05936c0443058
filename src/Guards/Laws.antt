-- ===== src/Guards/Laws.antt =====
-- Who the guards let through.
use edtech_lms_api.Prelude.{
  String, Bool, true, Option, none, some, List, [], ◌∷◌, ◌≡◌, ◌↔◌, refl, ap, arith, inl, inr, ◌⊎◌,
  Bool-cases, eq_true, if◌then◌else◌, ◌&&◌, any, contains, IsIn,
}
use edtech_lms_api.Enums.{apikey_role, superadmin_permission}
use edtech_lms_api.Errors.{ok, err, Failure, unauthorized}
use edtech_lms_api.Js.{Value, get}
use edtech_lms_api.Claims.{permission_names}
use edtech_lms_api.Guards.{
  access_guard, api_key_user, header_is, is_empty, check_permissions_guard, has_permission,
}

is_empty-eq : (xs : List String) → is_empty xs ≡ true → xs ≡ []
is_empty-eq [] h = refl
is_empty-eq (x ∷ xs) h = absurd (ground arith)

header_is-eq :
    (expected : String) (h : Option String) → header_is expected h ≡ true → h ≡ some expected
header_is-eq expected none h = absurd (ground arith)
header_is-eq expected (some s) h = ap some (eq_true s expected h)

-- What a request that authentication rejects must show.
rejected-ok :
    (role : List String) (bearer : String) (header : Option String) (failed : Option Failure)
    (u : Value)
    → (if header_is bearer header && contains role apikey_role
        then ok api_key_user
        else err (elim failed [ some e ↦ e | none ↦ unauthorized ]))
      ≡ ok u
    → (header ≡ some bearer) × (contains role apikey_role ≡ true) × (u ≡ api_key_user)
rejected-ok role bearer header failed u h = elim (Bool-cases (header_is bearer header)) [
  | inl e ↦ (header_is-eq bearer header e, ground arith, ground arith)
  | inr n ↦ absurd (ground arith)
]

-- A request passes the access guard only as an authenticated user that holds one of the route's
-- roles, where the route names roles, or as the application itself, on a route for it and with
-- exactly its key.
pub access_guard-ok :
    (role : List String) (bearer : String) (header : Option String) (failed : Option Failure)
    (user : Option Value) (u : Value)
    → access_guard role bearer header failed user ≡ ok u
    → ((failed ≡ none)
        × (user ≡ some u)
        × ((role ≡ []) ⊎ (any (contains (permission_names (get "lmsuserroles" u))) role ≡ true)))
      ⊎ ((header ≡ some bearer)
          × (contains role apikey_role ≡ true)
          × (u ≡ api_key_user)
          × ((user ≡ none) ⊎ ((e : Failure) × (failed ≡ some e))))
unfolding access_guard
access_guard-ok role bearer header (some e) user u h =
    let (same, keyed, shown) = rejected-ok role bearer header (some e) u h in
    inr (same, keyed, shown, inr (e, refl))
access_guard-ok role bearer header none none u h =
    let (same, keyed, shown) = rejected-ok role bearer header none u h in
    inr (same, keyed, shown, inl refl)
access_guard-ok role bearer header none (some v) u h = elim (Bool-cases (is_empty role)) [
  | inl e ↦ inl (refl, ground arith, inl (is_empty-eq role e))
  | inr n ↦ inl (refl, ground arith, ground arith)
]

any_iff :
    (p : String → Bool) (xs : List String)
    → (any p xs ≡ true) ↔ ((x : String) × IsIn x xs × (p x ≡ true))
any_iff p [] = (λ h. absurd (ground arith), λ (x, m, e). absurd m)
any_iff p (x ∷ xs) = (
  (λ h. elim (Bool-cases (p x)) [
    | inl e ↦ (x, inl refl, e)
    | inr e ↦ let (y, m, f) = (any_iff p xs).0 (ground arith) in (y, inr m, f)
  ]),
  (λ (y, m, f). elim m [
    | inl e ↦ ground (arith, ap p e)
    | inr later ↦ ground (arith, (any_iff p xs).1 (y, later, f))
  ]),
)

-- A route that declares permissions lets exactly those pass that hold one of them or the wildcard.
pub check_permissions_guard_iff :
    (required : List String) (user : Value)
    → (check_permissions_guard (some required) user ≡ true) ↔ (
        (perm : String) × IsIn perm required
        × ((contains (permission_names (get "permissions" user)) perm ≡ true)
            ⊎ (contains (permission_names (get "permissions" user)) superadmin_permission ≡ true)))
unfolding check_permissions_guard has_permission
check_permissions_guard_iff required user =
    let found = any_iff (has_permission (permission_names (get "permissions" user))) required in
    (
      (λ h. let (perm, m, e) = found.0 h in (perm, m, ground arith)),
      (λ (perm, m, e). found.1 (perm, m, ground arith)),
    )
