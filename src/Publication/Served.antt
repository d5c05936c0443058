-- ===== src/Publication/Served.antt =====
-- src/business/published-content.ts: no row that a publication holds is lost, and each translation
-- goes with its row.
use edtech_lms_api.Prelude.{
  String, ◌≡◌, refl, sym, ap, ◌∙◌, ◌⊎◌, inl, inr, true, false, Option, none, some, List, [], ◌∷◌,
  map, arith, if◌then◌else◌, Bool-cases, filter, IsIn, IsIn-filter, ◌==◌, eq_true, eq_self,
  contains,
}
use edtech_lms_api.Js.{get_field}
use edtech_lms_api.Export.Keys.{
  Row, TableKey, contenttranslations, curriculum_content_keys, pk, key_at,
}
use edtech_lms_api.Export.Confine.{somes, keys_at, table_at}
use edtech_lms_api.Publication.Payload.{is_translations}
use edtech_lms_api.Publication.Merge.{
  PublishedSet, is_set, newer_set, holds, winner_from, winner, emitted, goes_with,
  is_kept_translation, rows_of_pairs, sent_order, merge_published,
}
use edtech_lms_api.Publication.Merged.{winner-IsNewest}
use edtech_lms_api.Publication.Taken.{taken_keys_complete}
use edtech_lms_api.Publication.Sent.{sent_order-IsIn}
use edtech_lms_api.Publication.Copies.{emitted-IsIn}
use Prim.Native.Nat.{Ordering}

module _ (lower : String → String) where
  keys_at-row :
      (column : String) (rows : List Row) (id : String)
      → contains (keys_at lower column rows) id ≡ true
      → (row : Row) × IsIn row rows × (key_at lower column row ≡ some id)
  unfolding contains
  keys_at-row column [] id h = absurd (ground arith)
  keys_at-row column (x ∷ rows) id h =
      by_key (key_at lower column x) refl h (keys_at-row column rows id)
    where
      by_key :
          (k : Option String)
          → key_at lower column x ≡ k
          → contains (somes (k ∷ map (key_at lower column) rows)) id ≡ true
          → (contains (keys_at lower column rows) id ≡ true
              → (row : Row) × IsIn row rows × (key_at lower column row ≡ some id))
          → (row : Row) × IsIn row (x ∷ rows) × (key_at lower column row ≡ some id)
      by_key none e q rest = let (row, m, f) = rest q in (row, inr m, f)
      by_key (some k) e q rest = elim (Bool-cases (k == id)) [
        | inl same ↦ (x, inl refl, e ∙ ap some (eq_true k id same))
        | inr other ↦ let (row, m, f) = rest (ground (arith, q, other)) in (row, inr m, f)
      ]

  winner_from-holds :
      (table : TableKey) (id : String) (held : Option PublishedSet) (sets : List PublishedSet)
      → ((s : PublishedSet) × IsIn s sets × (holds lower table id s ≡ true))
        ⊎ (winner_from lower table id held sets ≡ held)
  winner_from-holds table id held [] = inr refl
  winner_from-holds table id held (x ∷ sets) = elim (Bool-cases (holds lower table id x)) [
    | inl e ↦ inl (x, inl refl, e)
    | inr e ↦ elim (winner_from-holds table id held sets) [
      | inl (s, m, h) ↦ inl (s, inr m, h)
      | inr same ↦ inr (
          ap (λ b. winner_from lower table id (if b then some (newer_set held x) else held) sets) e
          ∙ same)
    ]
  ]

  is_set-holds :
      (table : TableKey) (id : String) (sets : List PublishedSet) (s : PublishedSet)
      → is_set (winner lower table id sets) s ≡ true
      → (w : PublishedSet) × IsIn w sets × (holds lower table id w ≡ true)
  unfolding winner
  is_set-holds table id sets s h = elim (winner_from-holds table id none sets) [
    | inl found ↦ found
    | inr nobody ↦ absurd (ground (arith, sym (ap (λ o. is_set o s) nobody) ∙ h))
  ]

  module _ (locale : String → String → Ordering) (sets : List PublishedSet) where
    -- An id that a publication's table holds stands in that table of the merge.
    pub merge_published_complete :
        (table : TableKey) (id : String) (s : PublishedSet)
        → is_translations table ≡ false
        → IsIn s sets
        → holds lower table id s ≡ true
        → contains (keys_at lower (pk table) (merge_published lower locale sets table)) id ≡ true
    unfolding merge_published holds contains
    merge_published_complete table id s plain m h =
        let (w, wins, newest) = winner-IsNewest lower table id sets s m h in
        let (row, i, e) = keys_at-row (pk table) (w.tables table) id newest.holding in
        rw (plain) (
          taken_keys_complete lower table sets []
            (emitted lower table (sent_order lower locale sets)) w row id
            (emitted-IsIn lower table (sent_order lower locale sets) w row
              (sent_order-IsIn lower locale w sets newest.one_of) i)
            e (ap (λ o. is_set o w) wins ∙ eq_self w.publicationid) nothing_taken)
      where
        nothing_taken : contains [] id ≡ false
        nothing_taken = refl

    rows_of_pairs-IsIn :
        (pairs : List (PublishedSet × Row)) (row : Row)
        → IsIn row (rows_of_pairs lower pairs)
        → (s : PublishedSet) × IsIn (s, row) pairs
    rows_of_pairs-IsIn [] row m = absurd m
    rows_of_pairs-IsIn ((s, x) ∷ pairs) row (inl same) = (s, inl (λ i. (s, same i)))
    rows_of_pairs-IsIn ((s, x) ∷ pairs) row (inr m) =
        let (t, i) = rows_of_pairs-IsIn pairs row m in (t, inr i)

    -- Each translation of the merge names a table of curriculum content and the id of a row that is
    -- in that table of the merge.
    pub merge_published-translations :
        (row : Row)
        → IsIn row (merge_published lower locale sets contenttranslations)
        → (table : TableKey) × (id : String) × (table_at lower curriculum_content_keys
              (get_field "tablename" row)
            ≡ some table)
          × (key_at lower "rowid" row ≡ some id)
          × (contains (keys_at lower (pk table) (merge_published lower locale sets table)) id
              ≡ true)
    unfolding merge_published is_kept_translation
    merge_published-translations row m =
        let (s, i) =
          rows_of_pairs-IsIn
            (filter (is_kept_translation lower sets)
              (emitted lower contenttranslations (sent_order lower locale sets)))
            row m in
        let (j, kept) = IsIn-filter (is_kept_translation lower sets) (s, row) _ i in
        by_parent s (table_at lower curriculum_content_keys (get_field "tablename" row))
          (key_at lower "rowid" row) refl refl kept
      where
        by_parent :
            (s : PublishedSet) (table : Option TableKey) (id : Option String)
            → table_at lower curriculum_content_keys (get_field "tablename" row) ≡ table
            → key_at lower "rowid" row ≡ id
            → goes_with lower sets table id s ≡ true
            → (table : TableKey) × (id : String) × (table_at lower curriculum_content_keys
                  (get_field "tablename" row)
                ≡ some table)
              × (key_at lower "rowid" row ≡ some id)
              × (contains (keys_at lower (pk table) (merge_published lower locale sets table)) id
                  ≡ true)
        by_parent s none id e f h = absurd (ground arith)
        by_parent s (some table) none e f h = absurd (ground arith)
        by_parent s (some table) (some id) e f h = elim (Bool-cases (is_translations table)) [
          | inl itself ↦ absurd (ground (arith, itself))
          | inr plain ↦
              let (w, n, there) = is_set-holds table id sets s (ground (arith, plain)) in
              (table, id, e, f, merge_published_complete table id w plain n there)
        ]
