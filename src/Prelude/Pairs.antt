-- ===== src/Prelude/Pairs.antt =====
-- Lists of which every two elements, in their order, are related.
use mathlib.Core.Path.{◌≡◌, refl, sym, ap, ◌∙◌, subst}
use mathlib.Core.Logic.{◌⊎◌, inl, inr}
use mathlib.Core.Bool.{Bool, true}
use mathlib.Core.Option.{some}
use mathlib.Core.List.{List, [], ◌∷◌, ◌++◌, map}
use native.Mathlib.Omega.{arith}
use edtech_lms_api.Prelude.Tests.{Bool-cases, if◌then◌else◌}
use edtech_lms_api.Prelude.Lists.{All, IsIn, IsIn-filter, filter, find, any}

module _ {A : Type 0} where
  abbrev pub IsPairwise : (A → A → Type 0) → List A → Type 0
  IsPairwise R [] = Unit
  IsPairwise R (x ∷ xs) = All (R x) xs × IsPairwise R xs

  pub All-IsIn : (P : A → Type 0) (a : A) (xs : List A) → All P xs → IsIn a xs → P a
  All-IsIn P a [] h m = absurd m
  All-IsIn P a (x ∷ xs) (p, ps) (inl e) = subst P e p
  All-IsIn P a (x ∷ xs) (p, ps) (inr m) = All-IsIn P a xs ps m

  pub All-of_IsIn : (P : A → Type 0) (xs : List A) → ((a : A) → IsIn a xs → P a) → All P xs
  All-of_IsIn P [] h = tt
  All-of_IsIn P (x ∷ xs) h = (h x (inl refl), All-of_IsIn P xs (λ a m. h a (inr m)))

  pub IsIn-map :
      {B : Type 0} (f : A → B) (b : B) (xs : List A)
      → IsIn b (map f xs)
      → (a : A) × IsIn a xs × (f a ≡ b)
  IsIn-map f b [] m = absurd m
  IsIn-map f b (x ∷ xs) (inl e) = (x, inl refl, e)
  IsIn-map f b (x ∷ xs) (inr m) = let (a, i, e) = IsIn-map f b xs m in (a, inr i, e)

  pub any-IsIn : (p : A → Bool) (xs : List A) → any p xs ≡ true → (a : A) × IsIn a xs × (p a ≡ true)
  any-IsIn p [] h = absurd (ground arith)
  any-IsIn p (x ∷ xs) h = elim (Bool-cases (p x)) [
    | inl e ↦ (x, inl refl, e)
    | inr e ↦ let (a, m, q) = any-IsIn p xs (ground arith) in (a, inr m, q)
  ]

  pub any-of_IsIn : (p : A → Bool) (a : A) (xs : List A) → IsIn a xs → p a ≡ true → any p xs ≡ true
  any-of_IsIn p a [] m h = absurd m
  any-of_IsIn p a (x ∷ xs) (inl e) h = ground (arith, ap p e ∙ h)
  any-of_IsIn p a (x ∷ xs) (inr m) h = ground (arith, any-of_IsIn p a xs m h)

  -- What is found by no test of any element.
  pub find-map :
      (p : A → Bool) (f : A → A) (xs : List A) (a : A)
      → ((x : A) → p (f x) ≡ p x)
      → find p (map f xs) ≡ some a
      → (x : A) × (find p xs ≡ some x) × (f x ≡ a)
  find-map p f [] a same h = absurd (ground arith)
  find-map p f (x ∷ xs) a same h = elim (Bool-cases (p x)) [
    | inl e ↦ (x, ground (arith, same x), ground (arith, same x))
    | inr e ↦
        let (y, found, q) = find-map p f xs a same (ground (arith, same x)) in (y, ground arith, q)
  ]

  pub filter-map :
      (p : A → Bool) (f : A → A) (xs : List A)
      → ((x : A) → p (f x) ≡ p x)
      → filter p (map f xs) ≡ map f (filter p xs)
  filter-map p f [] same = refl
  filter-map p f (x ∷ xs) same = elim (Bool-cases (p x)) [
    | inl e ↦ ground (arith, same x, filter-map p f xs same)
    | inr e ↦ ground (arith, same x, filter-map p f xs same)
  ]

  module _ (R : A → A → Type 0) where
    pub IsPairwise-map :
        (f : A → A) (xs : List A)
        → ((x y : A) → R x y → R (f x) (f y))
        → IsPairwise R xs
        → IsPairwise R (map f xs)
    IsPairwise-map f [] keeps h = tt
    IsPairwise-map f (x ∷ xs) keeps (now, later) = (
      All-of_IsIn (R (f x)) (map f xs) (λ b m.
          let (a, i, e) = IsIn-map f b xs m in
          subst (R (f x)) e (keeps x a (All-IsIn (R x) a xs now i))),
      IsPairwise-map f xs keeps later,
    )

    -- A filter's elements are related as its test makes them.
    pub IsPairwise-filter :
        (S : A → A → Type 0) (p : A → Bool) (xs : List A)
        → ((x y : A) → p x ≡ true → p y ≡ true → R x y → S x y)
        → IsPairwise R xs
        → IsPairwise S (filter p xs)
    IsPairwise-filter S p [] h r = tt
    IsPairwise-filter S p (x ∷ xs) h (now, later) = elim (Bool-cases (p x)) [
      | inl e ↦
          subst (λ b. IsPairwise S (if b then x ∷ filter p xs else filter p xs)) (sym e)
            (
              All-of_IsIn (S x) (filter p xs) (λ a m.
                  let (i, q) = IsIn-filter p a xs m in h x a e q (All-IsIn (R x) a xs now i)),
              IsPairwise-filter S p xs h later,
            )
      | inr e ↦
          subst (λ b. IsPairwise S (if b then x ∷ filter p xs else filter p xs)) (sym e)
            (IsPairwise-filter S p xs h later)
    ]

  pub IsIn-append : (a : A) (xs ys : List A) → IsIn a (xs ++ ys) → IsIn a xs ⊎ IsIn a ys
  IsIn-append a [] ys m = inr m
  IsIn-append a (x ∷ xs) ys (inl e) = inl (inl e)
  IsIn-append a (x ∷ xs) ys (inr m) = elim (IsIn-append a xs ys m) [
    | inl here ↦ inl (inr here)
    | inr there ↦ inr there
  ]

  pub IsIn-append_left : (a : A) (xs ys : List A) → IsIn a xs → IsIn a (xs ++ ys)
  IsIn-append_left a [] ys m = absurd m
  IsIn-append_left a (x ∷ xs) ys (inl e) = inl e
  IsIn-append_left a (x ∷ xs) ys (inr m) = inr (IsIn-append_left a xs ys m)

  pub IsIn-append_right : (a : A) (xs ys : List A) → IsIn a ys → IsIn a (xs ++ ys)
  IsIn-append_right a [] ys m = m
  IsIn-append_right a (x ∷ xs) ys m = inr (IsIn-append_right a xs ys m)
