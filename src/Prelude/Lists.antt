-- ===== src/Prelude/Lists.antt =====
-- Lists walked by Boolean tests, as `filter`, `find`, `some` and `every` walk arrays.
use Prim.Native.Nat.{ℕ, suc}
use mathlib.Core.Path.{◌≡◌, refl, sym, ap, ◌∙◌, subst}
use mathlib.Core.Logic.{◌⊎◌, inl, inr}
use mathlib.Core.Bool.{Bool, true, false, ◌&&◌, ◌||◌}
use mathlib.Core.Option.{Option, none, some}
use mathlib.Core.List.{List, [], ◌∷◌, map}
use native.Mathlib.Omega.{arith}
use edtech_lms_api.Prelude.Tests.{if◌then◌else◌, Bool-cases}

module _ {ℓ} {A : Type ℓ} where
  abbrev pub length : List A → ℕ
  length [] = 0
  length (x ∷ xs) = suc (length xs)

  abbrev pub filter : (A → Bool) → List A → List A
  filter p [] = []
  filter p (x ∷ xs) = let rest = filter p xs in if p x then x ∷ rest else rest

  abbrev pub find : (A → Bool) → List A → Option A
  find p [] = none
  find p (x ∷ xs) = if p x then some x else find p xs

  -- `Array.prototype.some`
  abbrev pub any : (A → Bool) → List A → Bool
  any p [] = false
  any p (x ∷ xs) = p x || any p xs

  -- `Array.prototype.every`
  abbrev pub all : (A → Bool) → List A → Bool
  all p [] = true
  all p (x ∷ xs) = p x && all p xs

  abbrev pub head? : List A → Option A
  head? [] = none
  head? (x ∷ xs) = some x

module _ {ℓ κ} {A : Type ℓ} (P : A → Type κ) where
  abbrev pub All : List A → Type κ
  All [] = Unit
  All (x ∷ xs) = P x × All xs

module _ {A : Type 0} where
  -- The value is an element of the list.
  abbrev pub IsIn : A → List A → Type 0
  IsIn a [] = ⊥
  IsIn a (x ∷ xs) = (x ≡ a) ⊎ IsIn a xs

  pub IsIn-filter :
      (p : A → Bool) (a : A) (xs : List A) → IsIn a (filter p xs) → IsIn a xs × (p a ≡ true)
  IsIn-filter p a [] h = elim h [ ]
  IsIn-filter p a (x ∷ xs) h = elim (Bool-cases (p x)) [
    | inl e ↦ elim (subst (λ b. IsIn a (if b then x ∷ filter p xs else filter p xs)) e h) [
      | inl same ↦ (inl same, ap p (sym same) ∙ e)
      | inr later ↦ let (i, q) = IsIn-filter p a xs later in (inr i, q)
    ]
    | inr e ↦
        let (i, q) =
          IsIn-filter p a xs
            (subst (λ b. IsIn a (if b then x ∷ filter p xs else filter p xs)) e h) in
        (inr i, q)
  ]

  pub IsIn-filter_of :
      (p : A → Bool) (a : A) (xs : List A) → IsIn a xs → p a ≡ true → IsIn a (filter p xs)
  IsIn-filter_of p a [] h q = h
  IsIn-filter_of p a (x ∷ xs) (inl same) q =
      subst (λ b. IsIn a (if b then x ∷ filter p xs else filter p xs)) (sym (ap p same ∙ q))
        (inl same)
  IsIn-filter_of p a (x ∷ xs) (inr later) q = elim (Bool-cases (p x)) [
    | inl e ↦
        subst (λ b. IsIn a (if b then x ∷ filter p xs else filter p xs)) (sym e)
          (inr (IsIn-filter_of p a xs later q))
    | inr e ↦
        subst (λ b. IsIn a (if b then x ∷ filter p xs else filter p xs)) (sym e)
          (IsIn-filter_of p a xs later q)
  ]

  pub find-IsIn : (p : A → Bool) (xs : List A) {a : A} → find p xs ≡ some a → IsIn a xs
  find-IsIn p [] h = absurd (ground arith)
  find-IsIn p (x ∷ xs) {a} h = elim (Bool-cases (p x)) [
    | inl e ↦ inl (ground arith)
    | inr e ↦ inr (find-IsIn p xs (ground arith))
  ]

module _ {ℓ} {A : Type ℓ} where
  -- What a filter keeps passes every test that the filter's own test implies.
  pub all-filter :
      (p q : A → Bool) (xs : List A)
      → ((x : A) → p x ≡ true → q x ≡ true)
      → all q (filter p xs) ≡ true
  all-filter p q [] h = refl
  all-filter p q (x ∷ xs) h = elim (Bool-cases (p x)) [
    | inl e ↦ ground (arith, h x e, all-filter p q xs h)
    | inr e ↦ ground (arith, all-filter p q xs h)
  ]

  -- Nothing that a filter drops is found afterwards.
  pub find-filter-none :
      (p q : A → Bool) (xs : List A)
      → ((x : A) → q x ≡ true → p x ≡ false)
      → find q (filter p xs) ≡ none
  find-filter-none p q [] h = refl
  find-filter-none p q (x ∷ xs) h = elim (Bool-cases (q x)) [
    | inl e ↦ ground (arith, h x e, find-filter-none p q xs h)
    | inr e ↦ ground (arith, find-filter-none p q xs h)
  ]

  pub find_sound : (p : A → Bool) (xs : List A) {x : A} → find p xs ≡ some x → p x ≡ true
  find_sound p [] h = cc
  find_sound p (y ∷ ys) {x} h = elim (Bool-cases (p y)) [
    | inl e ↦ ground arith
    | inr e ↦ find_sound p ys (ground arith)
  ]

  pub all-map_iff {κ} :
      {B : Type κ} (f : B → A) (p : A → Bool) (xs : List B)
      → all p (map f xs) ≡ all (λ x. p (f x)) xs
  all-map_iff f p [] = refl
  all-map_iff f p (x ∷ xs) = ground (arith, all-map_iff f p xs)

  -- A filter that keeps whatever is looked for changes no search.
  pub find-filter_keep :
      (p q : A → Bool) (xs : List A)
      → ((x : A) → q x ≡ true → p x ≡ true)
      → find q (filter p xs) ≡ find q xs
  find-filter_keep p q [] h = refl
  find-filter_keep p q (x ∷ xs) h = elim (Bool-cases (q x)) [
    | inl e ↦ ground (arith, h x e, find-filter_keep p q xs h)
    | inr e ↦ ground (arith, find-filter_keep p q xs h)
  ]
