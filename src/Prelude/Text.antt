-- ===== src/Prelude/Text.antt =====
-- Texts that the program only compares, and sets of them.
use Prim.Native.String.{String}
use Prim.Native.Char.{code}
use Prim.Native.Nat.{ℕ}
use mathlib.Core.Path.{◌≡◌, refl}
use mathlib.Core.Logic.{inl, inr}
use mathlib.Core.Bool.{Bool, true, false, not, ◌&&◌, ◌||◌}
use mathlib.Core.List.{List, [], ◌∷◌, map}
use native.Mathlib.Omega.{arith}
use text.Mathlib.Text.{◌==◌ as str_eq}
use text.Mathlib.TextEquality.{eq_iff}
use edtech_lms_api.Prelude.Tests.{Bool-cases}
use edtech_lms_api.Prelude.Lists.{All, filter}

-- `a === b` on strings. Shut, so that the tactics see one test and not a comparison.
infix 50 ◌==◌
unfoldable pub ◌==◌ : String → String → Bool
a == b = str_eq a b

pub eq_true : (a b : String) → (a == b) ≡ true → a ≡ b
unfolding ◌==◌
eq_true a b h = (eq_iff a b).0 h

pub eq_self : (a : String) → (a == a) ≡ true
unfolding ◌==◌
eq_self a = (eq_iff a a).1 refl

pub eq_of : (a b : String) → a ≡ b → (a == b) ≡ true
unfolding ◌==◌
eq_of a b h = (eq_iff a b).1 h

-- The code points of a text.
abbrev pub codes : String → List ℕ
codes String.[] = []
codes (String.◌∷◌ c s) = code c ∷ codes s

-- `xs.includes(x)`, and `new Set(xs).has(x)`
unfoldable pub contains : List String → String → Bool
contains [] a = false
contains (x ∷ xs) a = x == a || contains xs a

-- Every text of the first list is one of the second.
abbrev pub IsSubset : List String → List String → Type 0
IsSubset xs ys = All (λ x. contains ys x ≡ true) xs

-- `new Set(xs)`, in the order of first insertion
unfoldable pub distinct : List String → List String
distinct [] = []
distinct (x ∷ xs) = x ∷ filter (λ y. not (y == x)) (distinct xs)

pub contains-filter :
    (p : String → Bool) (xs : List String) (a : String)
    → contains (filter p xs) a ≡ (contains xs a && p a)
unfolding contains
contains-filter p [] a = refl
contains-filter p (x ∷ xs) a = elim (Bool-cases (x == a)) [
  | inl s ↦
      let e : x ≡ a = eq_true x a s in rw e (ground (arith, contains-filter p xs a, eq_self a))
  | inr n ↦ ground (arith, contains-filter p xs a, n)
]

pub contains-distinct : (xs : List String) (a : String) → contains (distinct xs) a ≡ contains xs a
unfolding distinct contains
contains-distinct [] a = refl
contains-distinct (x ∷ xs) a = ground (
  arith,
  contains-filter (λ y. not (y == x)) (distinct xs) a,
  contains-distinct xs a,
  eq_true x a,
  eq_true a x,
  eq_of a x,
  eq_of x a,
)

pub contains-map-filter {ℓ} :
    {A : Type ℓ} (f : A → String) (p : A → Bool) (xs : List A) (a : String)
    → contains (map f (filter p xs)) a ≡ true
    → contains (map f xs) a ≡ true
unfolding contains
contains-map-filter f p [] a h = h
contains-map-filter f p (x ∷ xs) a h = ground (arith, contains-map-filter f p xs a)
