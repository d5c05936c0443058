-- ===== src/Export/Translated.antt =====
-- src/business/organisation-content-export.ts: the translations that `confine` gives back.
use edtech_lms_api.Prelude.{
  String, ◌≡◌, refl, sym, ap, ◌∙◌, Bool, true, false, not, Option, none, some, List, arith,
  not-true, filter, all, find-IsIn, all-filter, ◌==◌,
}
use edtech_lms_api.Js.{Value, undefined, null, bool, num, str, arr, obj, get_field}
use edtech_lms_api.Export.Keys.{
  Row, TableKey, contenttranslations, content_table_keys, key_name, same_key, translation_tables,
  key_at,
}
use edtech_lms_api.Export.Confine.{
  Given, over_rows, checked, ids_in, drop_orphans, named_in, found_in, table_at, has_parent,
  drop_polymorphic, reachable, trim_id_lists, confine,
}
use edtech_lms_api.Export.Tables.{
  plain_keys, ids_in-untranslated, drop_polymorphic-translations, drop_orphans-translations,
  trim-table,
}
use edtech_lms_api.Export.Closed.{answer-checked, ids_in-untrimmed}
use edtech_lms_api.Export.Ties.{all-IsIn}

abbrev plain_key : TableKey → Bool
plain_key k = not (same_key k contenttranslations)

module _ (lower : String → String) where
  named_in-fewer :
      (before after : Option (List String)) (id : Option String)
      → ((ids : List String) → after ≡ some ids → before ≡ some ids)
      → named_in lower before id ≡ true
      → named_in lower after id ≡ true
  named_in-fewer before none id kept h = refl
  named_in-fewer before (some ids) id kept h =
      ap (λ o. named_in lower o id) (sym (kept ids refl)) ∙ h

  table_at-plain :
      (tables : List TableKey) (v : Value) (k : TableKey)
      → all plain_key tables ≡ true
      → table_at lower tables v ≡ some k
      → same_key k contenttranslations ≡ false
  table_at-plain tables (str name) k h e =
      not-true (same_key k contenttranslations)
        (all-IsIn plain_key k tables (find-IsIn (λ key. key_name key == name) tables e) h)
  table_at-plain tables undefined k h e = absurd (ground arith)
  table_at-plain tables null k h e = absurd (ground arith)
  table_at-plain tables (bool b) k h e = absurd (ground arith)
  table_at-plain tables (num n) k h e = absurd (ground arith)
  table_at-plain tables (arr vs) k h e = absurd (ground arith)
  table_at-plain tables (obj fs) k h e = absurd (ground arith)

  -- What hangs from a row before hangs from one after, where each table but the translations has
  -- the ids after that it had before.
  module _ (before after : Given)
      (kept : (k : TableKey) (ids : List String)
        → same_key k contenttranslations ≡ false
        → ids_in lower k after ≡ some ids
        → ids_in lower k before ≡ some ids) where
    found_in-kept :
        (found : Option TableKey) (id : Option String)
        → ((k : TableKey) → found ≡ some k → same_key k contenttranslations ≡ false)
        → found_in lower before found id ≡ true
        → found_in lower after found id ≡ true
    found_in-kept none id plain h = absurd (ground arith)
    found_in-kept (some k) id plain h =
        named_in-fewer (ids_in lower k before) (ids_in lower k after) id
          (λ ids e. kept k ids (plain k refl) e) h

    has_parent-kept :
        (tables : List TableKey) (row : Row)
        → all plain_key tables ≡ true
        → has_parent lower tables before row ≡ true
        → has_parent lower tables after row ≡ true
    unfolding has_parent
    has_parent-kept tables row plain h =
        found_in-kept (table_at lower tables (get_field "tablename" row)) (key_at lower "rowid" row)
          (λ k e. table_at-plain tables (get_field "tablename" row) k plain e) h

    all-has_parent :
        (tables : List TableKey) (rows : List Row)
        → all plain_key tables ≡ true
        → all (has_parent lower tables after) (filter (has_parent lower tables before) rows) ≡ true
    all-has_parent tables rows plain =
        all-filter (has_parent lower tables before) (has_parent lower tables after) rows
          (λ row h. has_parent-kept tables row plain h)

    over_rows-has_parent :
        (tables : List TableKey) (given : Option (List Row)) (rows : List Row)
        → all plain_key tables ≡ true
        → over_rows (filter (has_parent lower tables before)) given ≡ some rows
        → all (has_parent lower tables after) rows ≡ true
    unfolding over_rows
    over_rows-has_parent tables none rows plain h = absurd (ground arith)
    over_rows-has_parent tables (some given) rows plain h =
        let same : filter (has_parent lower tables before) given ≡ rows = ground arith in
        ap (all (has_parent lower tables after)) (sym same) ∙ all-has_parent tables given plain

  translations_untrimmed :
      (parse : String → Option Value) (given : Given)
      → trim_id_lists lower parse given contenttranslations ≡ given contenttranslations
  translations_untrimmed parse given = trim-table lower parse given contenttranslations

  reachable-translations :
      (given : Given)
      → reachable lower given contenttranslations
        ≡ over_rows
            (filter (
              has_parent lower translation_tables
                (drop_polymorphic lower plain_keys (drop_orphans lower content_table_keys given))))
            (given contenttranslations)
  unfolding reachable
  reachable-translations given =
      drop_polymorphic-translations lower (drop_orphans lower content_table_keys given)
      ∙ ap
          (over_rows (
            filter (
              has_parent lower translation_tables
                (drop_polymorphic lower plain_keys (drop_orphans lower content_table_keys given)))))
          (drop_orphans-translations lower given)

  ids_in-before :
      (given : Given) (k : TableKey)
      → same_key k contenttranslations ≡ false
      → ids_in lower k
          (drop_polymorphic lower plain_keys (drop_orphans lower content_table_keys given))
        ≡ ids_in lower k (reachable lower given)
  unfolding reachable
  ids_in-before given k plain =
      ids_in-untranslated lower (drop_orphans lower content_table_keys given) k plain

  -- Each translation in the tables that `confine` gives back names a table that may be translated
  -- and, where that table was given, one of the rows that are there in the end.
  pub confine-translations :
      (parse : String → Option Value) (given tables : Given) (rows : List Row)
      → confine lower parse given ≡ checked tables
      → tables contenttranslations ≡ some rows
      → all (has_parent lower translation_tables tables) rows ≡ true
  unfolding confine
  confine-translations parse given tables rows h e =
      let (none_wrong, same) = answer-checked lower parse (reachable lower given) tables _ h in
      over_rows-has_parent
        (drop_polymorphic lower plain_keys (drop_orphans lower content_table_keys given)) tables
        (λ k ids plain i.
          ids_in-before given k plain
          ∙ ids_in-untrimmed lower parse k (reachable lower given) ids
              (ap (ids_in lower k) (sym same) ∙ i))
        translation_tables (given contenttranslations) rows refl
        (sym (reachable-translations given)
          ∙ sym (translations_untrimmed parse (reachable lower given))
          ∙ ap (λ t. t contenttranslations) (sym same)
          ∙ e)
