-- ===== src/Publication/Changes.antt =====
-- src/business/curriculum-publication.ts: what a publish counts as a change.
use edtech_lms_api.Prelude.{
  String, ◌≡◌, refl, sym, ap, ◌∙◌, ◌↔◌, ◌⊎◌, inl, inr, Bool, true, false, not, ◌&&◌, Option, none,
  some, List, [], ◌∷◌, arith, Bool-cases, Option-cases, &&_true, filter, ◌==◌, eq_true, eq_self,
  contains,
}
use edtech_lms_api.Js.{Value, end, field, put}
use edtech_lms_api.Export.Keys.{Row}
use edtech_lms_api.Publication.Hashes.{
  Entries, hash_at, ids_of, hash_excluded, hashed_columns, row_hash, differs, is_hashed,
  diff_entries, is_no_id, is_no_change,
}

hashed_columns-put :
    (column : String) (v : Value) (row : Row)
    → contains hash_excluded column ≡ true
    → hashed_columns (put column v row) ≡ hashed_columns row
unfolding hashed_columns put
hashed_columns-put column v end h = rw (h) refl
hashed_columns-put column v (field i w more) h = elim (Bool-cases (i == column)) [
  | inl e ↦
      let same : contains hash_excluded i ≡ true =
        ap (contains hash_excluded) (eq_true i column e) ∙ h in
      ground arith
  | inr e ↦ ground (arith, hashed_columns-put column v more h)
]

-- Writing an audit column of a row does not change its hash.
pub row_hash-audit :
    (text : Row → String) (sha256 : String → String) (column : String) (v : Value) (row : Row)
    → contains hash_excluded column ≡ true
    → row_hash text sha256 (put column v row) ≡ row_hash text sha256 row
unfolding row_hash
row_hash-audit text sha256 column v row h =
    ap (λ r. sha256 (text r)) (hashed_columns-put column v row h)

hash_at-none :
    (id : String) (entries : Entries)
    → contains (ids_of entries) id ≡ false
    → hash_at id entries ≡ none
unfolding contains
hash_at-none id [] h = refl
hash_at-none id ((i, x) ∷ entries) h = ground (arith, hash_at-none id entries)

filter_none :
    (p : String → Bool) (ids : List String) (id : String)
    → is_no_id (filter p ids) ≡ true
    → contains ids id ≡ true
    → p id ≡ false
unfolding contains
filter_none p [] id h m = absurd (ground arith)
filter_none p (x ∷ ids) id h m = elim (Bool-cases (x == id)) [
  | inl e ↦ rw (sym (eq_true x id e)) (by_head (Bool-cases (p x)))
  | inr e ↦ filter_none p ids id (by_tail (Bool-cases (p x))) (ground arith)
]
  where
    by_head : (p x ≡ true) ⊎ (p x ≡ false) → p x ≡ false
    by_head (inl e) = absurd (ground arith)
    by_head (inr e) = e

    by_tail : (p x ≡ true) ⊎ (p x ≡ false) → is_no_id (filter p ids) ≡ true
    by_tail (inl e) = absurd (ground arith)
    by_tail (inr e) = ground arith

is_hashed-contains :
    (id : String) (entries : Entries)
    → contains (ids_of entries) id ≡ true
    → is_hashed id entries ≡ true
unfolding contains
is_hashed-contains id [] m = absurd (ground arith)
is_hashed-contains id ((i, x) ∷ entries) m = elim (Bool-cases (i == id)) [
  | inl e ↦ ground arith
  | inr e ↦ ground (arith, is_hashed-contains id entries)
]

hash_at-contains :
    (id : String) (entries : Entries) (x : String)
    → hash_at id entries ≡ some x
    → contains (ids_of entries) id ≡ true
hash_at-contains id entries x h = elim (Bool-cases (contains (ids_of entries) id)) [
  | inl e ↦ e
  | inr e ↦ absurd (ground (arith, hash_at-none id entries e))
]

filter_all_false :
    (p : String → Bool) (ids : List String)
    → ((id : String) → contains ids id ≡ true → p id ≡ false)
    → is_no_id (filter p ids) ≡ true
unfolding contains
filter_all_false p [] h = refl
filter_all_false p (x ∷ ids) h = ground (
  arith,
  h x (ground (arith, eq_self x)),
  filter_all_false p ids (λ id m. h id (ground (arith, m))),
)

no_change-parts :
    (now before : Entries)
    → is_no_change (diff_entries now before) ≡ true
    → (is_no_id (filter (λ id. not (is_hashed id before)) (ids_of now)) ≡ true)
      × (is_no_id (filter (λ id. not (is_hashed id now)) (ids_of before)) ≡ true)
      × (is_no_id (filter (λ id. differs (hash_at id before) (hash_at id now)) (ids_of now)) ≡ true)
unfolding diff_entries
no_change-parts now before h =
    let (a, rest) = &&_true _ _ h in let (b, c) = &&_true _ _ rest in (a, b, c)

differs-equal : (b x : String) → differs (some b) (some x) ≡ false → x ≡ b
differs-equal b x h = sym (eq_true b x (ground arith))

module _ (now before : Entries) where
  same_when_unchanged :
      is_no_change (diff_entries now before) ≡ true
      → (id : String) → hash_at id now ≡ hash_at id before
  same_when_unchanged h id =
      let (a, b, c) = no_change-parts now before h in
      elim (Option-cases (hash_at id now)) [
        | inl n ↦ elim (Option-cases (hash_at id before)) [
          | inl m ↦ n ∙ sym m
          | inr (x, m) ↦
              let kept =
                filter_none (λ i. not (is_hashed i now)) (ids_of before) id b
                  (hash_at-contains id before x m) in
              absurd (ground (arith, kept, n))
        ]
        | inr (x, n) ↦ elim (Option-cases (hash_at id before)) [
          | inl m ↦
              let kept =
                filter_none (λ i. not (is_hashed i before)) (ids_of now) id a
                  (hash_at-contains id now x n) in
              absurd (ground (arith, kept, m))
          | inr (y, m) ↦
              let kept =
                filter_none (λ i. differs (hash_at i before) (hash_at i now)) (ids_of now) id c
                  (hash_at-contains id now x n) in
              n ∙ ap some (differs-equal y x (ap2_differs m n ∙ kept)) ∙ sym m
        ]
      ]
    where
      ap2_differs :
          {x y : String}
          → hash_at id before ≡ some y
          → hash_at id now ≡ some x
          → differs (some y) (some x) ≡ differs (hash_at id before) (hash_at id now)
      ap2_differs m n = λ i. differs (sym m i) (sym n i)

  differs-same : (o : Option String) → differs o o ≡ false
  differs-same none = refl
  differs-same (some x) = ground (arith, eq_self x)

  unchanged_when_same :
      ((id : String) → hash_at id now ≡ hash_at id before)
      → is_no_change (diff_entries now before) ≡ true
  unfolding diff_entries
  unchanged_when_same same =
      let a =
        filter_all_false (λ i. not (is_hashed i before)) (ids_of now)
          (λ id m. ground (arith, is_hashed-contains id now m, same id)) in
      let b =
        filter_all_false (λ i. not (is_hashed i now)) (ids_of before)
          (λ id m. ground (arith, is_hashed-contains id before m, same id)) in
      let c =
        filter_all_false (λ i. differs (hash_at i before) (hash_at i now)) (ids_of now)
          (λ id m. ap (differs (hash_at id before)) (same id) ∙ differs-same (hash_at id before)) in
      λ i. a i && (b i && c i)

-- The hashes of a table's rows now and before differ in nothing (no id added, removed or changed)
-- exactly when every id has the same hash in both, or none in either.
pub diff_entries-same :
    (now before : Entries)
    → (is_no_change (diff_entries now before) ≡ true)
      ↔ ((id : String) → hash_at id now ≡ hash_at id before)
diff_entries-same now before = (same_when_unchanged now before, unchanged_when_same now before)
