-- ===== src/Publication/Copies.antt =====
-- src/business/published-content.ts: each row is served once and in its newest copy.
use edtech_lms_api.Prelude.{
  String, ◌≡◌, refl, sym, ap, ◌∙◌, subst, inl, inr, true, false, Option, none, some, List, [], ◌∷◌,
  map, arith, if◌then◌else◌, Bool-cases, &&_true, filter, IsIn, ◌==◌, eq_true, eq_self, eq_of,
  contains, IsPairwise, All-IsIn, IsIn-append, IsIn-append_left, IsIn-append_right,
}
use edtech_lms_api.Export.Keys.{Row, TableKey, pk, key_at}
use edtech_lms_api.Export.Confine.{somes, keys_at}
use edtech_lms_api.Publication.Payload.{is_translations}
use edtech_lms_api.Publication.Merge.{
  PublishedSet, is_set, if_taken, holds, winner, tagged, emitted, is_taken_from, taking, take_rows,
  is_kept_translation, rows_of_pairs, sent_order, merge_published,
}
use edtech_lms_api.Publication.Sent.{IsIn-sent_order}
use edtech_lms_api.Publication.Taken.{is_distinct, taken_keys-distinct}
use edtech_lms_api.Publication.Merged.{IsNewest, winner-IsNewest}
use Prim.Native.Nat.{Ordering}

-- No two sets have one publication id.
abbrev pub IsOther : PublishedSet → PublishedSet → Type 0
IsOther a b = (a.publicationid == b.publicationid) ≡ false

module _ (lower : String → String) where
  IsIn-tagged :
      (s t : PublishedSet) (row : Row) (rows : List Row)
      → IsIn (t, row) (tagged lower s rows)
      → (s ≡ t) × IsIn row rows
  IsIn-tagged s t row [] m = absurd m
  IsIn-tagged s t row (x ∷ rows) (inl same) = ((λ i. (same i).0), inl (λ i. (same i).1))
  IsIn-tagged s t row (x ∷ rows) (inr m) =
      let (same, later) = IsIn-tagged s t row rows m in (same, inr later)

  tagged-IsIn :
      (s : PublishedSet) (row : Row) (rows : List Row)
      → IsIn row rows
      → IsIn (s, row) (tagged lower s rows)
  tagged-IsIn s row [] m = absurd m
  tagged-IsIn s row (x ∷ rows) (inl same) = inl (λ i. (s, same i))
  tagged-IsIn s row (x ∷ rows) (inr m) = inr (tagged-IsIn s row rows m)

  pub emitted-IsIn :
      (table : TableKey) (sets : List PublishedSet) (s : PublishedSet) (row : Row)
      → IsIn s sets
      → IsIn row (s.tables table)
      → IsIn (s, row) (emitted lower table sets)
  emitted-IsIn table [] s row m i = absurd m
  emitted-IsIn table (x ∷ sets) s row (inl same) i =
      IsIn-append_left (s, row) (tagged lower x (x.tables table)) (emitted lower table sets)
        (subst (λ y. IsIn (s, row) (tagged lower y (y.tables table))) (sym same)
          (tagged-IsIn s row (s.tables table) i))
  emitted-IsIn table (x ∷ sets) s row (inr m) i =
      IsIn-append_right (s, row) (tagged lower x (x.tables table)) (emitted lower table sets)
        (emitted-IsIn table sets s row m i)

  pub IsIn-emitted :
      (table : TableKey) (sets : List PublishedSet) (s : PublishedSet) (row : Row)
      → IsIn (s, row) (emitted lower table sets)
      → IsIn s sets × IsIn row (s.tables table)
  IsIn-emitted table [] s row m = absurd m
  IsIn-emitted table (x ∷ sets) s row m =
      elim (IsIn-append (s, row) (tagged lower x (x.tables table)) (emitted lower table sets) m) [
        | inl here ↦
            let (same, i) = IsIn-tagged x s row (x.tables table) here in
            (inl same, subst (λ y. IsIn row (y.tables table)) same i)
        | inr later ↦ let (i, j) = IsIn-emitted table sets s row later in (inr i, j)
      ]

  -- A row that is taken is the winning copy of its id.
  IsIn-take_rows :
      (table : TableKey) (sets : List PublishedSet) (taken : List String)
      (rows : List (PublishedSet × Row)) (row : Row)
      → IsIn row (take_rows lower table sets taken rows)
      → (s : PublishedSet) × (id : String) × IsIn (s, row) rows
        × (key_at lower (pk table) row ≡ some id)
        × (is_set (winner lower table id sets) s ≡ true)
  IsIn-take_rows table sets taken [] row m = absurd m
  IsIn-take_rows table sets taken ((t, other) ∷ rows) row m =
      by_key (λ held n. IsIn-take_rows table sets held rows row n) (key_at lower (pk table) other)
        refl m
    where
      by_key :
          ((held : List String)
            → IsIn row (take_rows lower table sets held rows)
            → (s : PublishedSet) × (id : String) × IsIn (s, row) rows
              × (key_at lower (pk table) row ≡ some id)
              × (is_set (winner lower table id sets) s ≡ true))
          → (k : Option String) → key_at lower (pk table) other ≡ k
          → IsIn row (
              if_taken
                (is_taken_from lower table sets taken t k)
                other
                (take_rows lower table sets (taking lower k taken) rows)
                (take_rows lower table sets taken rows))
          → (s : PublishedSet) × (id : String) × IsIn (s, row) ((t, other) ∷ rows)
            × (key_at lower (pk table) row ≡ some id)
            × (is_set (winner lower table id sets) s ≡ true)
      by_key rest none e n = let (s, id, i, f, w) = rest taken n in (s, id, inr i, f, w)
      by_key rest (some k) e n =
          elim (Bool-cases (is_taken_from lower table sets taken t (some k))) [
            | inr lost ↦
                let (s, id, i, f, w) = rest taken (
                  subst
                    (λ b. IsIn row (
                      if_taken b other (take_rows lower table sets (k ∷ taken) rows)
                        (take_rows lower table sets taken rows)))
                    lost n) in
                (s, id, inr i, f, w)
            | inl won ↦
                elim (subst
                  (λ b. IsIn row (
                    if_taken b other (take_rows lower table sets (k ∷ taken) rows)
                      (take_rows lower table sets taken rows)))
                  won n) [
                    | inl same ↦ (
                      t,
                      k,
                      inl (λ i. (t, same i)),
                      ap (key_at lower (pk table)) (sym same) ∙ e,
                      (&&_true _ _ won).0,
                    )
                    | inr later ↦
                        let (s, id, i, f, w) = rest (k ∷ taken) later in (s, id, inr i, f, w)
                  ]
          ]

  module _ (locale : String → String → Ordering) where
    -- In each table of the merge but the translations, no two rows have one id (compared without
    -- regard to case).
    pub merge_published-distinct :
        (sets : List PublishedSet) (table : TableKey)
        → is_translations table ≡ false
        → is_distinct (keys_at lower (pk table) (merge_published lower locale sets table)) ≡ true
    unfolding merge_published
    merge_published-distinct sets table plain = rw (plain) (
        taken_keys-distinct lower table sets []
          (emitted lower table (sent_order lower locale sets)))

    other-same :
        (sets : List PublishedSet) (s w : PublishedSet)
        → IsPairwise IsOther sets
        → IsIn s sets
        → IsIn w sets
        → (w.publicationid == s.publicationid) ≡ true
        → s ≡ w
    other-same [] s w apart m n same = absurd m
    other-same (x ∷ sets) s w (now, later) (inl e) (inl f) same = sym e ∙ f
    other-same (x ∷ sets) s w (now, later) (inl e) (inr n) same =
        let apart = All-IsIn (IsOther x) w sets now n in
        let back =
          eq_of x.publicationid w.publicationid
            (ap (λ y. y.publicationid) e ∙ sym (eq_true w.publicationid s.publicationid same)) in
        absurd (ground (arith, apart, back))
    other-same (x ∷ sets) s w (now, later) (inr m) (inl f) same =
        let apart = All-IsIn (IsOther x) s sets now m in
        let back =
          eq_of x.publicationid s.publicationid
            (ap (λ y. y.publicationid) f ∙ eq_true w.publicationid s.publicationid same) in
        absurd (ground (arith, apart, back))
    other-same (x ∷ sets) s w (now, later) (inr m) (inr n) same = other-same sets s w later m n same

    pub keys_at-IsIn :
        (column : String) (row : Row) (rows : List Row) (id : String)
        → IsIn row rows
        → key_at lower column row ≡ some id
        → contains (keys_at lower column rows) id ≡ true
    unfolding contains
    keys_at-IsIn column row [] id m e = absurd m
    keys_at-IsIn column row (x ∷ rows) id (inl same) e =
        let at : key_at lower column x ≡ some id = ap (key_at lower column) same ∙ e in
        rw (at) (ground (arith, eq_self id))
    keys_at-IsIn column row (x ∷ rows) id (inr m) e =
        with_key (key_at lower column x) (keys_at-IsIn column row rows id m e)
      where
        with_key :
            (k : Option String)
            → contains (keys_at lower column rows) id ≡ true
            → contains (somes (k ∷ map (key_at lower column) rows)) id ≡ true
        with_key none h = h
        with_key (some k) h = ground (arith, h)

    -- Each row of a table of the merge but the translations is a row of one of the publications,
    -- and none of those publications that holds a row of the same id is newer than that one. The
    -- publications' ids differ.
    pub merge_published-IsNewest :
        (sets : List PublishedSet) (table : TableKey) (row : Row)
        → is_translations table ≡ false
        → IsPairwise IsOther sets
        → IsIn row (merge_published lower locale sets table)
        → (s : PublishedSet) × (id : String) × (key_at lower (pk table) row ≡ some id)
          × IsIn row (s.tables table)
          × IsNewest lower table id sets s
    unfolding merge_published holds
    merge_published-IsNewest sets table row plain apart m =
        let (s, id, i, e, wins) =
          IsIn-take_rows table sets [] (emitted lower table (sent_order lower locale sets)) row (
            subst
              (λ b. IsIn row (
                if b
                then rows_of_pairs lower (
                    filter (is_kept_translation lower sets)
                      (emitted lower table (sent_order lower locale sets)))
                else take_rows lower table sets []
                    (emitted lower table (sent_order lower locale sets))))
              plain m) in
        let (sent, there) = IsIn-emitted table (sent_order lower locale sets) s row i in
        let member = IsIn-sent_order lower locale s sets sent in
        let (w, best, newest) =
          winner-IsNewest lower table id sets s member
            (keys_at-IsIn (pk table) row (s.tables table) id there e) in
        let same =
          other-same sets s w apart member newest.one_of (ap (λ o. is_set o s) (sym best) ∙ wins) in
        (s, id, e, there, subst (IsNewest lower table id sets) (sym same) newest)
