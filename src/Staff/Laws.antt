-- ===== src/Staff/Laws.antt =====
-- The organisation of a new account, and of one that changes.
use edtech_lms_api.Prelude.{
  String, Bool, true, false, Option, none, some, ◌≡◌, refl, not, arith, inl, inr, ◌⊎◌, Bool-cases,
  is_some, if◌then◌else◌, eq_true, ◌&&◌, Option-cases, ◌∙◌, ap,
}
use edtech_lms_api.Errors.{
  Result, ok, err, Failure, coded, not_allowed, invalid_field, >>=-eq-ok, throw_if, ◌>>◌,
}
use edtech_lms_api.Claims.{OrgContext}
use edtech_lms_api.Scope.{Scope, platform, organisation, scope_of, is_platform}
use edtech_lms_api.Session.{same_text}
use edtech_lms_api.Store.{Collation, Db}
use edtech_lms_api.Staff.{
  Requested, not_sent, sent, resulting, is_sent, AfterChange, is_live, may_move_to, in_scope_of,
  chosen_organisation, organisation_for_new_account, organisation_after_change,
}

pub same_text-eq : (a b : Option String) → same_text a b ≡ true → a ≡ b
same_text-eq none none h = refl
same_text-eq none (some b) h = cc
same_text-eq (some a) none h = cc
same_text-eq (some a) (some b) h = ap some (eq_true a b h)

in_scope_of-ok :
    (c : Collation) (scope : Scope) (requested : Requested) (holds : Bool) (db : Db)
    (o : Option String)
    → in_scope_of c scope requested holds db ≡ ok o
    → ((scope ≡ platform) × (holds ≡ true) × (o ≡ none))
      ⊎ ((id : String) × (o ≡ some id)
          × (is_live c id db ≡ true)
          × ((scope ≡ organisation id)
              ⊎ ((scope ≡ platform) × (holds ≡ false) × (requested ≡ sent (some id)))))
unfolding in_scope_of chosen_organisation
in_scope_of-ok c (organisation id) requested holds db o h =
    inr (id, ground arith, ground arith, inl refl)
in_scope_of-ok c platform requested true db o h = inl (refl, refl, ground arith)
in_scope_of-ok c platform not_sent false db o h = absurd (ground arith)
in_scope_of-ok c platform (sent none) false db o h = absurd (ground arith)
in_scope_of-ok c platform (sent (some id)) false db o h =
    inr (id, ground arith, ground arith, inr (refl, refl, refl))

-- A new account has no organisation only as a Super Admin that the platform makes. Any other has
-- one that exists: the caller's own, or the one that a platform caller named.
pub organisation_for_new_account-ok :
    (c : Collation) (org : Option OrgContext) (requested : Requested) (holds : Bool) (db : Db)
    (o : Option String)
    → organisation_for_new_account c org requested holds db ≡ ok o
    → ((scope_of org ≡ ok platform) × (holds ≡ true) × (o ≡ none))
      ⊎ ((id : String) × (o ≡ some id)
          × (is_live c id db ≡ true)
          × ((scope_of org ≡ ok (organisation id))
              ⊎ ((scope_of org ≡ ok platform) × (holds ≡ false) × (requested ≡ sent (some id)))))
unfolding organisation_for_new_account
organisation_for_new_account-ok c org requested holds db o h =
    let (scope, found, rest) = >>=-eq-ok (scope_of org) _ h in
    ground (arith, in_scope_of-ok c scope requested holds db o rest)

is_platform-eq : (s : Scope) → is_platform s ≡ true → s ≡ platform
is_platform-eq platform h = refl
is_platform-eq (organisation id) h = cc

is_sent-eq : (r : Requested) → is_sent r ≡ false → r ≡ not_sent
is_sent-eq not_sent h = refl
is_sent-eq (sent o) h = cc

-- What a chain of checks that returned has passed.
passed :
    (t : Bool) (m : Result (Unit {0})) (u : Bool) (e f : Failure) (v a : AfterChange)
    → (throw_if t e >> (m >> (throw_if u f >> ok v))) ≡ ok a
    → (t ≡ false) × (m ≡ ok tt) × (u ≡ false) × (v ≡ a)
passed t (ok tt) u e f v a h = ground arith
passed t (err x) u e f v a h = absurd (ground arith)

module _ (c : Collation) (result current : Option String) (had will_hold : Bool) (db : Db) where
  -- The checks of a change, on the organisation that results.
  abbrev Moves : Type 0
  Moves =
      ((if not (same_text result current) then may_move_to c result will_hold db else ok tt)
        ≡ ok tt)
      × ((had && (not (is_some current) && (not (is_some result) && not will_hold))) ≡ false)

  moves_live :
      (id : String)
      → Moves
      → not (same_text result current) ≡ true
      → will_hold ≡ false
      → result ≡ some id
      → is_live c id db ≡ true
  moves_live id m ch w e = ground (arith, ch, w, e)

  moves_none :
      Moves
      → result ≡ none
      → will_hold ≡ false
      → (not (same_text result current) ≡ false) × (had ≡ false)
  moves_none m e w = elim (Option-cases current) [
    | inl n ↦ ground arith
    | inr (o, n) ↦ ground arith
  ]

-- A change of organisation that is let through: what the account has afterwards, that only a
-- platform caller moves it, that a move to an organisation by an account without Super Admin is to
-- one that exists, and that an account left with none holds Super Admin or had neither before.
pub organisation_after_change-ok :
    (c : Collation) (org : Option OrgContext) (requested : Requested) (current : Option String)
    (had will_hold : Bool) (db : Db) (a : AfterChange)
    → organisation_after_change c org requested current had will_hold db ≡ ok a
    → (a.organisationid ≡ resulting requested current)
      × (a.changed ≡ not (same_text (resulting requested current) current))
      × ((requested ≡ not_sent) ⊎ (scope_of org ≡ ok platform))
      × ((id : String)
          → a.changed ≡ true
          → will_hold ≡ false
          → a.organisationid ≡ some id
          → is_live c id db ≡ true)
      × (a.organisationid ≡ none → will_hold ≡ false → (a.changed ≡ false) × (had ≡ false))
unfolding organisation_after_change
organisation_after_change-ok c org requested current had will_hold db a h =
    let (scope, found, rest) = >>=-eq-ok (scope_of org) _ h in
    let result = resulting requested current in
    let (sent_ok, moved_ok, kept_ok, made) =
      passed (is_sent requested && not (is_platform scope))
        (if not (same_text result current) then may_move_to c result will_hold db else ok tt)
        (had && (not (is_some current) && (not (is_some result) && not will_hold)))
        (coded not_allowed)
        (invalid_field "organisationid"
          "Give this account an organisation to remove Super Admin from it.")
        (record { organisationid = result; changed = not (same_text result current) }) a rest in
    let moves : Moves c result current had will_hold db = (moved_ok, kept_ok) in
    (
      ground arith,
      ground arith,
      elim (Bool-cases (is_sent requested)) [
        | inl s ↦ inr (found ∙ ap ok (is_platform-eq scope (ground arith)))
        | inr n ↦ inl (is_sent-eq requested n)
      ],
      (λ id ch w e.
          moves_live c result current had will_hold db id moves (ground arith) w (ground arith)),
      (λ e w.
          let (x, y) = moves_none c result current had will_hold db moves (ground arith) w in
          (ground arith, y)),
    )
