-- ===== src/Export/Closed.antt =====
-- src/business/organisation-content-export.ts: the tables that `confine` gives back are closed.
use edtech_lms_api.Prelude.{
  String, ◌≡◌, refl, sym, ap, ◌∙◌, inl, inr, true, not, Option, none, some, List, [], ◌∷◌, ◌++◌,
  map, arith, Bool-cases, Option-cases, length, filter, all, IsIn,
}
use edtech_lms_api.Js.{Value}
use edtech_lms_api.Export.Keys.{
  Row, TableKey, content_table_keys, Reference, pk, parent, refs, IdList, id_lists, key_at,
}
use edtech_lms_api.Export.Confine.{
  Given, over_rows, Problem, Confined, refused, checked, somes, ids_in, is_among, hanging,
  kept_rows, reachable, is_missing, problem_of, problems_of_table, problems_of, trim_row,
  trimmed_by, trim_id_lists, answer, confine,
}
use edtech_lms_api.Export.Tables.{names_of, column_in, reachable-table, trim_lists, trim-table}
use edtech_lms_api.Export.Columns.{column_in-trim, ids_in-some}
use edtech_lms_api.Export.Ties.{
  pk-kept, parent-kept, refs-kept, parent-plain, content_table_keys-all,
}

over_rows-none : (f : List Row → List Row) → over_rows f none ≡ none
unfolding over_rows
over_rows-none f = refl

module _ (lower : String → String) where
  pub answer-checked :
      (parse : String → Option Value) (given tables : Given) (ps : List Problem)
      → answer lower parse given ps ≡ checked tables
      → (ps ≡ []) × (tables ≡ trim_id_lists lower parse given)
  answer-checked parse given tables [] h = (refl, ap tables_of (sym h))
    where
      tables_of : Confined → Given
      tables_of (checked t) = t
      tables_of (refused ps) = given
  answer-checked parse given tables (p ∷ ps) h = absurd (ground arith)

  all-map-filter :
      (ids : List String) (fk : String) (rows : List Row)
      → all
          (is_among lower ids)
          (map (key_at lower fk) (filter (λ row. is_among lower ids (key_at lower fk row)) rows))
        ≡ true
  all-map-filter ids fk [] = refl
  all-map-filter ids fk (row ∷ rows) =
      elim (Bool-cases (is_among lower ids (key_at lower fk row))) [
        | inl e ↦ ground (arith, all-map-filter ids fk rows)
        | inr e ↦ ground (arith, all-map-filter ids fk rows)
      ]

  names_of-hanging :
      (fk : String) (ids : List String) (rows : Option (List Row))
      → all (is_among lower ids) (names_of lower fk (over_rows (hanging lower fk (some ids)) rows))
        ≡ true
  unfolding over_rows
  names_of-hanging fk ids none = refl
  names_of-hanging fk ids (some rows) = all-map-filter ids fk rows

  reachable-hanging :
      (given : Given) (k : TableKey) (r : Reference) (ids : List String)
      → parent k ≡ some r
      → ids_in lower r.to (reachable lower given) ≡ some ids
      → all (is_among lower ids) (column_in lower r.fk k (reachable lower given)) ≡ true
  reachable-hanging given k r ids h found =
      ap (λ rows. all (is_among lower ids) (names_of lower r.fk rows))
        (reachable-table lower given k (parent-plain k r h))
      ∙ ap
          (λ up.
            all (is_among lower ids)
              (names_of lower r.fk (kept_rows lower up (reachable lower given) (given k))))
          h
      ∙ ap
          (λ ids'.
            all (is_among lower ids)
              (names_of lower r.fk (over_rows (hanging lower r.fk ids') (given k))))
          found
      ∙ names_of-hanging r.fk ids (given k)

  trim_lists-none :
      (parse : String → Option Value) (lists : List IdList) (given : Given)
      → trim_lists lower parse lists given none ≡ none
  trim_lists-none parse [] given = refl
  trim_lists-none parse (list ∷ lists) given =
      ap (trim_lists lower parse lists given)
        (trimmed_by-none list.column (ids_in lower list.to given))
      ∙ trim_lists-none parse lists given
    where
      trimmed_by-none :
          (column : String) (ids : Option (List String))
          → trimmed_by lower parse column ids none ≡ none
      trimmed_by-none column none = refl
      trimmed_by-none column (some ids) = over_rows-none (map (trim_row lower parse column ids))

  -- The ids of a table are those it had before its lists were trimmed.
  pub ids_in-untrimmed :
      (parse : String → Option Value) (k : TableKey) (given : Given) (ids : List String)
      → ids_in lower k (trim_id_lists lower parse given) ≡ some ids
      → ids_in lower k given ≡ some ids
  unfolding ids_in
  ids_in-untrimmed parse k given ids h = elim (Option-cases (given k)) [
    | inl e ↦
        let gone : trim_id_lists lower parse given k ≡ none =
          trim-table lower parse given k
          ∙ ap (trim_lists lower parse (id_lists k) (trim_id_lists lower parse given)) e
          ∙ trim_lists-none parse (id_lists k) (trim_id_lists lower parse given) in
        absurd (ground arith)
    | inr (rows, e) ↦
        let same =
          ids_in-some lower k (trim_id_lists lower parse given) ids h
          ∙ ap somes (column_in-trim lower parse given k (pk k) (pk-kept k)) in
        rw (e) (ap some (sym (same ∙ ap (λ x. somes (names_of lower (pk k) x)) e)))
  ]

  -- In the tables that `confine` gives back, each row of a table that hangs from another table
  -- names, where that table was given, one of the rows that are there in the end.
  pub confine-closed :
      (parse : String → Option Value) (given tables : Given) (k : TableKey) (r : Reference)
      (ids : List String)
      → confine lower parse given ≡ checked tables
      → parent k ≡ some r
      → ids_in lower r.to tables ≡ some ids
      → all (is_among lower ids) (column_in lower r.fk k tables) ≡ true
  unfolding confine
  confine-closed parse given tables k r ids h up found =
      let (none_wrong, same) = answer-checked parse (reachable lower given) tables _ h in
      let before =
        ids_in-untrimmed parse r.to (reachable lower given) ids
          (ap (ids_in lower r.to) (sym same) ∙ found) in
      ap (λ t. all (is_among lower ids) (column_in lower r.fk k t)) same
      ∙ ap (all (is_among lower ids))
          (column_in-trim lower parse (reachable lower given) k r.fk (parent-kept k r up))
      ∙ reachable-hanging given k r ids up before

  filter-missing :
      (ref : Reference) (ids : List String) (rows : List Row)
      → length (filter (λ row. is_missing lower ref ids (key_at lower ref.fk row)) rows) ≡ 0
      → all (λ id. not (is_missing lower ref ids id)) (map (key_at lower ref.fk) rows) ≡ true
  filter-missing ref ids [] h = refl
  filter-missing ref ids (row ∷ rows) h =
      elim (Bool-cases (is_missing lower ref ids (key_at lower ref.fk row))) [
        | inl e ↦ absurd (ground arith)
        | inr e ↦ ground (arith, filter-missing ref ids rows (ground arith))
      ]

  problem_of-none :
      (k : TableKey) (ref : Reference) (ids : List String) (rows : List Row)
      → problem_of lower k ref (some ids) rows ≡ []
      → all (λ id. not (is_missing lower ref ids id)) (map (key_at lower ref.fk) rows) ≡ true
  unfolding problem_of
  problem_of-none k ref ids rows h = filter-missing ref ids rows (ground arith)

  append-none : (xs ys : List Problem) → (xs ++ ys) ≡ [] → (xs ≡ []) × (ys ≡ [])
  append-none [] ys h = (refl, h)
  append-none (x ∷ xs) ys h = absurd (ground arith)

  problems_of_table-none :
      (given : Given) (k : TableKey) (rows : List Row) (rs : List Reference) (ref : Reference)
      → problems_of_table lower given k rows rs ≡ []
      → IsIn ref rs
      → problem_of lower k ref (ids_in lower ref.to given) rows ≡ []
  problems_of_table-none given k rows [] ref h m = absurd m
  problems_of_table-none given k rows (r ∷ rs) ref h (inl e) =
      ap (λ x. problem_of lower k x (ids_in lower x.to given) rows) (sym e) ∙ (append-none _ _ h).0
  problems_of_table-none given k rows (r ∷ rs) ref h (inr m) =
      problems_of_table-none given k rows rs ref (append-none _ _ h).1 m

  problems_of-none :
      (given : Given) (keys : List TableKey) (k : TableKey) (rows : List Row)
      → problems_of lower keys given ≡ []
      → IsIn k keys
      → given k ≡ some rows
      → problems_of_table lower given k rows (refs k) ≡ []
  unfolding problems_of
  problems_of-none given [] k rows h m e = absurd m
  problems_of-none given (x ∷ keys) k rows h (inl same) e =
      let there : given x ≡ some rows = ap given same ∙ e in
      ap (λ y. problems_of_table lower given y rows (refs y)) (sym same)
      ∙ (append-none (problems_of_table lower given x rows (refs x)) (problems_of lower keys given)
          (ground arith)).0
  problems_of-none given (x ∷ keys) k rows h (inr m) e = elim (Option-cases (given x)) [
    | inl n ↦ problems_of-none given keys k rows (ground arith) m e
    | inr (others, n) ↦
        problems_of-none given keys k rows
          (append-none (problems_of_table lower given x others (refs x))
            (problems_of lower keys given) (ground arith)).1
          m e
  ]

  -- In the tables that `confine` gives back, each row names, in each column by which its table
  -- refers to another one that was given, a row that is there in the end, or nothing where the
  -- reference is optional.
  pub confine-referenced :
      (parse : String → Option Value) (given tables : Given) (k : TableKey) (r : Reference)
      (ids : List String)
      → confine lower parse given ≡ checked tables
      → IsIn r (refs k)
      → ids_in lower r.to tables ≡ some ids
      → all (λ id. not (is_missing lower r ids id)) (column_in lower r.fk k tables) ≡ true
  unfolding confine
  confine-referenced parse given tables k r ids h m found =
      let (none_wrong, same) = answer-checked parse (reachable lower given) tables _ h in
      let before =
        ids_in-untrimmed parse r.to (reachable lower given) ids
          (ap (ids_in lower r.to) (sym same) ∙ found) in
      ap (λ t. all (λ id. not (is_missing lower r ids id)) (column_in lower r.fk k t)) same
      ∙ ap (all (λ id. not (is_missing lower r ids id)))
          (column_in-trim lower parse (reachable lower given) k r.fk (refs-kept k r m))
      ∙ referenced (reachable lower given k) refl none_wrong before
    where
      referenced :
          (rows : Option (List Row))
          → reachable lower given k ≡ rows
          → problems_of lower content_table_keys (reachable lower given) ≡ []
          → ids_in lower r.to (reachable lower given) ≡ some ids
          → all
              (λ id. not (is_missing lower r ids id))
              (names_of lower r.fk (reachable lower given k))
            ≡ true
      referenced none e q i =
          ap (λ x. all (λ id. not (is_missing lower r ids id)) (names_of lower r.fk x)) e
      referenced (some rows) e q i =
          ap (λ x. all (λ id. not (is_missing lower r ids id)) (names_of lower r.fk x)) e
          ∙ problem_of-none k r ids rows (
              ap (λ x. problem_of lower k r x rows) (sym i)
              ∙ problems_of_table-none (reachable lower given) k rows (refs k) r
                  (problems_of-none (reachable lower given) content_table_keys k rows q
                    (content_table_keys-all k) e)
                  m)
