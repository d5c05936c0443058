-- ===== src/Store/Keys.antt =====
-- Primary keys: no two rows of a table have ids that the database takes for the same.
use edtech_lms_api.Prelude.{
  String, Bool, true, false, some, List, [], ◌∷◌, ◌≡◌, refl, not, any, all, find, arith, inl, inr,
  Bool-cases, ◌&&◌,
}
use edtech_lms_api.Store.{Collation, Organisation}

module _ (c : Collation) where
  open c use {matches, matches_sym, matches_trans}

  abbrev pub OrganisationsAreKeyed : List Organisation → Type 0
  OrganisationsAreKeyed [] = Unit
  OrganisationsAreKeyed (o ∷ os) =
      (all (λ p. not (matches p.organisationid o.organisationid)) os ≡ true)
      × OrganisationsAreKeyed os

  none_matches :
      (key id : String) (q : Organisation → Bool) (os : List Organisation)
      → all (λ p. not (matches p.organisationid key)) os ≡ true
      → matches key id ≡ true
      → any (λ o. matches o.organisationid id && q o) os ≡ false
  none_matches key id q [] h m = refl
  none_matches key id q (o ∷ os) h m =
      ground
        (arith, none_matches key id q os, matches_sym key id, matches_trans o.organisationid id key)

  -- Where some row of an id passes a test, the row that the id finds passes it.
  pub find_of_any :
      (id : String) (q : Organisation → Bool) (os : List Organisation)
      → OrganisationsAreKeyed os
      → any (λ o. matches o.organisationid id && q o) os ≡ true
      → (o : Organisation) × (find (λ o. matches o.organisationid id) os ≡ some o) × (q o ≡ true)
  find_of_any id q [] keyed h = absurd (ground arith)
  find_of_any id q (o ∷ os) (apart, keyed) h = elim (Bool-cases (matches o.organisationid id)) [
    | inl m ↦ (o, ground arith, ground (arith, none_matches o.organisationid id q os apart m))
    | inr n ↦
        let (p, found, passed) = find_of_any id q os keyed (ground arith) in
        (p, ground arith, passed)
  ]
