-- ===== src/Publication/Taken.antt =====
-- src/business/published-content.ts: the ids of the rows that the merge takes.
use edtech_lms_api.Prelude.{
  String, ◌≡◌, refl, sym, ap, ◌∙◌, ◌≢◌, ◌⊎◌, inl, inr, Bool, true, false, not, ◌&&◌, Option, some,
  List, [], ◌∷◌, arith, Bool-cases, Option-cases, IsIn, ◌==◌, eq_true, eq_self, eq_of, contains,
}
use edtech_lms_api.Export.Keys.{Row, TableKey, pk, key_at}
use edtech_lms_api.Export.Confine.{keys_at}
use edtech_lms_api.Publication.Merge.{
  PublishedSet, is_set, if_taken, winner, is_taken_from, taking, take_rows,
}

-- No text stands twice in the list.
abbrev pub is_distinct : List String → Bool
is_distinct [] = true
is_distinct (x ∷ xs) = not (contains xs x) && is_distinct xs

head_in : (k : String) (taken : List String) → contains (k ∷ taken) k ≢ false
unfolding contains
head_in k taken h = absurd (ground (arith, eq_self k))

pub contains-first :
    (k id : String) (xs : List String) → (k == id) ≡ true → contains (k ∷ xs) id ≡ true
unfolding contains
contains-first k id xs h = ground arith

contains-next :
    (k id : String) (xs : List String) → contains xs id ≡ true → contains (k ∷ xs) id ≡ true
unfolding contains
contains-next k id xs h = ground arith

contains-other :
    (k id : String) (xs : List String)
    → (k == id) ≡ false
    → contains xs id ≡ false
    → contains (k ∷ xs) id ≡ false
unfolding contains
contains-other k id xs h n = ground arith

pub some-injective : {A : Type 0} {a b : A} → some a ≡ some b → a ≡ b
some-injective h = cc

module _ (lower : String → String) where
  keys_of-cons :
      (table : TableKey) (row : Row) (rows : List Row) (id : String)
      → key_at lower (pk table) row ≡ some id
      → keys_at lower (pk table) (row ∷ rows) ≡ id ∷ keys_at lower (pk table) rows
  keys_of-cons table row rows id e = rw (e) refl

  module _ (table : TableKey) (sets : List PublishedSet) where
    abbrev taken_keys : List String → List (PublishedSet × Row) → List String
    taken_keys taken rows = keys_at lower (pk table) (take_rows lower table sets taken rows)

    -- What one more row adds to the rows taken.
    taken_keys-cons :
        (taken : List String) (s : PublishedSet) (row : Row) (rows : List (PublishedSet × Row))
        → ((is_taken_from lower table sets taken s (key_at lower (pk table) row) ≡ false)
            × (taken_keys taken ((s, row) ∷ rows) ≡ taken_keys taken rows))
          ⊎ ((id : String) × (key_at lower (pk table) row ≡ some id)
              × (contains taken id ≡ false)
              × (taken_keys taken ((s, row) ∷ rows) ≡ id ∷ taken_keys (id ∷ taken) rows))
    taken_keys-cons taken s row rows = elim (Option-cases (key_at lower (pk table) row)) [
      | inl e ↦ inl (ap (is_taken_from lower table sets taken s) e, ap (step) e)
      | inr (id, e) ↦ elim (Bool-cases (is_taken_from lower table sets taken s (some id))) [
        | inl f ↦ inr (
          id,
          e,
          ground (arith, f),
          ap (step) e
              ∙ ap (choose id) f
              ∙ keys_of-cons table row (take_rows lower table sets (id ∷ taken) rows) id e,
        )
        | inr f ↦
            inl (ap (is_taken_from lower table sets taken s) e ∙ f, ap (step) e ∙ ap (choose id) f)
      ]
    ]
      where
        choose : String → Bool → List String
        choose id t = keys_at lower (pk table) (
            if_taken t row (take_rows lower table sets (id ∷ taken) rows)
              (take_rows lower table sets taken rows))

        step : Option String → List String
        step id = keys_at lower (pk table) (
            if_taken (is_taken_from lower table sets taken s id) row
              (take_rows lower table sets (taking lower id taken) rows)
              (take_rows lower table sets taken rows))

    taken_keys-new :
        (taken : List String) (rows : List (PublishedSet × Row)) (id : String)
        → contains (taken_keys taken rows) id ≡ true
        → contains taken id ≡ false
    unfolding contains
    taken_keys-new taken [] id h = absurd (ground arith)
    taken_keys-new taken ((s, row) ∷ rows) id h = elim (taken_keys-cons taken s row rows) [
      | inl (why, same) ↦ taken_keys-new taken rows id (ap (λ xs. contains xs id) (sym same) ∙ h)
      | inr (k, e, free, same) ↦
          let among : contains (k ∷ taken_keys (k ∷ taken) rows) id ≡ true =
            ap (λ xs. contains xs id) (sym same) ∙ h in
          elim (Bool-cases (k == id)) [
            | inl f ↦ ap (contains taken) (sym (eq_true k id f)) ∙ free
            | inr f ↦
                let later = taken_keys-new (k ∷ taken) rows id (ground (arith, among, f)) in
                ground (arith, later)
          ]
    ]

    pub taken_keys-distinct :
        (taken : List String) (rows : List (PublishedSet × Row))
        → is_distinct (taken_keys taken rows) ≡ true
    taken_keys-distinct taken [] = refl
    taken_keys-distinct taken ((s, row) ∷ rows) = elim (taken_keys-cons taken s row rows) [
      | inl (why, same) ↦ ap is_distinct same ∙ taken_keys-distinct taken rows
      | inr (k, e, free, same) ↦
          ap is_distinct same ∙ both (fresh k taken rows) (taken_keys-distinct (k ∷ taken) rows)
    ]
      where
        both : {a b : Bool} → a ≡ false → b ≡ true → (not a && b) ≡ true
        both a b = ground arith

        fresh :
            (k : String) (taken : List String) (rows : List (PublishedSet × Row))
            → contains (taken_keys (k ∷ taken) rows) k ≡ false
        fresh k taken rows = elim (Bool-cases (contains (taken_keys (k ∷ taken) rows) k)) [
          | inl f ↦ absurd (head_in k taken (taken_keys-new (k ∷ taken) rows k f))
          | inr f ↦ f
        ]

    -- A winning copy among the rows is taken, unless its id is taken before.
    pub taken_keys_complete :
        (taken : List String) (rows : List (PublishedSet × Row)) (s : PublishedSet) (row : Row)
        (id : String)
        → IsIn (s, row) rows
        → key_at lower (pk table) row ≡ some id
        → is_set (winner lower table id sets) s ≡ true
        → contains taken id ≡ false
        → contains (taken_keys taken rows) id ≡ true
    taken_keys_complete taken [] s row id m e wins free = absurd m
    taken_keys_complete taken ((t, other) ∷ rows) s row id m e wins free =
        elim (taken_keys-cons taken t other rows) [
          | inl (why, same) ↦ elim m [
            | inl here ↦ absurd (ground (arith, why, wanted here))
            | inr later ↦
                ap (λ xs. contains xs id) same
                ∙ taken_keys_complete taken rows s row id later e wins free
          ]
          | inr (k, f, unused, same) ↦
              ap (λ xs. contains xs id) same ∙ elim (Bool-cases (k == id)) [
                | inl g ↦ contains-first k id (taken_keys (k ∷ taken) rows) g
                | inr g ↦ elim m [
                  | inl here ↦ absurd (ground (arith, g, key_same here f))
                  | inr later ↦ contains-next k id (taken_keys (k ∷ taken) rows) (
                      taken_keys_complete (k ∷ taken) rows s row id later e wins
                        (contains-other k id taken g free))
                ]
              ]
        ]
      where
        wanted :
            {t : PublishedSet} {other : Row}
            → ◌≡◌ {A = PublishedSet × Row} (t, other) (s, row)
            → is_taken_from lower table sets taken t (key_at lower (pk table) other) ≡ true
        wanted here =
            (λ i.
              is_taken_from lower table sets taken (here i).0 (key_at lower (pk table) (here i).1))
            ∙ ap (is_taken_from lower table sets taken s) e
            ∙ ground (arith, wins, free)

        key_same :
            {t : PublishedSet} {other : Row} {k : String}
            → ◌≡◌ {A = PublishedSet × Row} (t, other) (s, row)
            → key_at lower (pk table) other ≡ some k
            → (k == id) ≡ true
        key_same here f =
            eq_of _ id (some-injective (sym f ∙ (λ i. key_at lower (pk table) (here i).1) ∙ e))
