-- ===== src/Roles/Sets.antt =====
-- `sameRoleSet` compares sizes and one inclusion; that is equality of sets.
use edtech_lms_api.Prelude.{
  ◌≤◌, ◌<◌, String, Bool, true, false, List, [], ◌∷◌, ◌==◌, ◌≡◌, refl, ◌↔◌, not, all, filter,
  length, contains, distinct, arith, eq_true, eq_of, eq_self, contains-filter, contains-distinct,
  Bool-cases, inl, inr, ap,
}
use edtech_lms_api.Roles.{same_role_set}

-- No text occurs twice.
abbrev IsNodup : List String → Type 0
IsNodup [] = Unit
IsNodup (x ∷ xs) = (contains xs x ≡ false) × IsNodup xs

IsNodup-filter : (p : String → Bool) (xs : List String) → IsNodup xs → IsNodup (filter p xs)
IsNodup-filter p [] h = tt
IsNodup-filter p (x ∷ xs) h = ground (arith, IsNodup-filter p xs h.1, contains-filter p xs x)

pub distinct-IsNodup : (xs : List String) → IsNodup (distinct xs)
unfolding distinct
distinct-IsNodup [] = tt
distinct-IsNodup (x ∷ xs) = (
  ground (arith, contains-filter (λ y. not (y == x)) (distinct xs) x, eq_self x),
  IsNodup-filter (λ y. not (y == x)) (distinct xs) (distinct-IsNodup xs),
)

length-filter-le : (p : String → Bool) (xs : List String) → length (filter p xs) ≤ length xs
length-filter-le p [] = omega arith
length-filter-le p (x ∷ xs) = ground (arith, length-filter-le p xs)

-- Taking an element of the list out makes the list shorter.
length-remove :
    (x : String) (ys : List String)
    → contains ys x ≡ true
    → length (filter (λ y. not (y == x)) ys) < length ys
unfolding contains
length-remove x [] h = absurd (ground arith)
length-remove x (y ∷ ys) h =
    ground (arith, length-remove x ys, length-filter-le (λ z. not (z == x)) ys)

-- Every text of the one list is one of the other.
abbrev pub Includes : List String → List String → Type 0
Includes ys xs = (a : String) → contains xs a ≡ true → contains ys a ≡ true

Includes-remove :
    (x : String) (xs ys : List String)
    → contains xs x ≡ false
    → Includes ys (x ∷ xs)
    → Includes (filter (λ y. not (y == x)) ys) xs
unfolding contains
Includes-remove x xs ys fresh h a m = ground (
  arith,
  contains-filter (λ y. not (y == x)) ys a,
  h a,
  eq_true a x,
  ap (contains xs) {x = a} {y = x},
)

-- A list with no text twice is no longer than one that includes it, and shorter than one that has
-- a further text.
length-Includes : (xs ys : List String) → IsNodup xs → Includes ys xs → length xs ≤ length ys
unfolding contains
length-Includes [] ys n h = omega arith
length-Includes (x ∷ xs) ys n h = omega (
  arith,
  length-remove x ys (h x (ground (arith, eq_self x))),
  length-Includes xs (filter (λ y. not (y == x)) ys) n.1 (Includes-remove x xs ys n.0 h),
)

length-lt-Includes :
    (b : String) (xs ys : List String)
    → IsNodup xs
    → Includes ys xs
    → contains ys b ≡ true
    → contains xs b ≡ false
    → length xs < length ys
unfolding contains
length-lt-Includes b [] [] n h m o = absurd (ground arith)
length-lt-Includes b [] (y ∷ ys) n h m o = omega arith
length-lt-Includes b (x ∷ xs) ys n h m o = omega (
  arith,
  length-remove x ys (h x (ground (arith, eq_self x))),
  length-lt-Includes b xs (filter (λ y. not (y == x)) ys) n.1 (Includes-remove x xs ys n.0 h)
      (ground (arith, contains-filter (λ y. not (y == x)) ys b, eq_of x b, eq_true b x))
      (ground arith),
)

all-contains_iff : (b xs : List String) → (all (contains b) xs ≡ true) ↔ Includes b xs
unfolding contains
all-contains_iff b [] = ((λ h a m. absurd (ground arith)), (λ h. refl))
all-contains_iff b (x ∷ xs) = (
  (λ h a m. elim (Bool-cases (x == a)) [
    | inl s ↦ ground (arith, eq_true x a s, ap (contains b) (eq_true x a s))
    | inr t ↦ (all-contains_iff b xs).0 (ground arith) a (ground arith)
  ]),
  (λ h. ground (arith, h x, eq_self x, (all-contains_iff b xs).1 (λ a m. h a (ground arith)))),
)

-- Two lists of ids are the same role set exactly when each includes the other: order and repeats
-- do not matter.
pub same_role_set_iff :
    (a b : List String) → (same_role_set a b ≡ true) ↔ (Includes b a × Includes a b)
unfolding same_role_set
same_role_set_iff a b = (
  (λ h.
      let within : Includes b (distinct a) = (all-contains_iff b (distinct a)).0 (ground arith) in
      let sizes : length (distinct a) ≡ length (distinct b) = ground arith in
      (
        (λ x m. within x (ground (arith, contains-distinct a x))),
        (λ x m. elim (Bool-cases (contains a x)) [
          | inl held ↦ held
          | inr missing ↦ absurd (
              omega (
                arith,
                length-lt-Includes x (distinct a) (distinct b) (distinct-IsNodup a)
                    (λ y k. ground (arith, contains-distinct b y, within y k))
                    (ground (arith, contains-distinct b x)) (ground (arith, contains-distinct a x)),
                sizes,
              ))
        ]),
      )),
  (λ h.
      let forth : Includes (distinct b) (distinct a) =
        (λ y k. ground (arith, contains-distinct a y, contains-distinct b y, h.0 y)) in
      let back : Includes (distinct a) (distinct b) =
        (λ y k. ground (arith, contains-distinct a y, contains-distinct b y, h.1 y)) in
      let within =
        (all-contains_iff b (distinct a)).1
          (λ y k. ground (arith, contains-distinct b y, forth y k)) in
      ground (
        arith,
        within,
        length-Includes (distinct a) (distinct b) (distinct-IsNodup a) forth,
        length-Includes (distinct b) (distinct a) (distinct-IsNodup b) back,
      )),
)
