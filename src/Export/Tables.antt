-- ===== src/Export/Tables.antt =====
-- src/business/organisation-content-export.ts: what the loops of `confine` leave of each table.
use edtech_lms_api.Prelude.{
  String, ◌≡◌, refl, Bool, false, Option, none, some, List, [], ◌∷◌, map, arith, filter, any, ◌==◌,
}
use edtech_lms_api.Js.{Value}
use edtech_lms_api.Export.Keys.{
  Row, TableKey, countries, schools, standards, subjects, curriculums, questions, documents,
  curriculumbaselines, baselinequestion, grades, levels, lessons, lessonlearnings,
  lessonlearningdocuments, lessonplans, lessonpractices, lessonquizzes, lessonpracticequestions,
  lessonquizquestions, levelquizquestions, contenttranslations, content_table_keys, same_key,
  parent, translation_tables, IdList, id_lists, key_at,
}
use edtech_lms_api.Export.Confine.{
  Given, over_rows, set_table, ids_in, kept_rows, drop_orphans, has_parent, drop_polymorphic,
  reachable, trim_rows, trim_id_lists,
}

-- What a column of a table's rows names; nothing where the table was not given.
abbrev pub names_of : (String → String) → String → Option (List Row) → List (Option String)
names_of lower column none = []
names_of lower column (some rows) = map (key_at lower column) rows

abbrev pub column_in : (String → String) → String → TableKey → Given → List (Option String)
column_in lower column key given = names_of lower column (given key)

-- Is the column one of the lists of ids that are trimmed?
abbrev pub is_trimmed : TableKey → String → Bool
is_trimmed key column = any (λ list. list.column == column) (id_lists key)

-- The keys before the translations'.
abbrev pub plain_keys : List TableKey
plain_keys =
    countries ∷ schools ∷ standards ∷ subjects ∷ curriculums ∷ questions ∷ documents
    ∷ curriculumbaselines ∷ baselinequestion ∷ grades ∷ levels ∷ lessons ∷ lessonlearnings
    ∷ lessonlearningdocuments ∷ lessonplans ∷ lessonpractices ∷ lessonquizzes
    ∷ lessonpracticequestions ∷ lessonquizquestions ∷ levelquizquestions ∷ []

module _ (lower : String → String) where
  drop_orphans-table :
      (given : Given) (k : TableKey)
      → drop_orphans lower content_table_keys given k
        ≡ kept_rows lower (parent k) (drop_orphans lower content_table_keys given) (given k)
  unfolding set_table ids_in
  drop_orphans-table given countries = refl
  drop_orphans-table given schools = refl
  drop_orphans-table given standards = refl
  drop_orphans-table given subjects = refl
  drop_orphans-table given curriculums = refl
  drop_orphans-table given questions = refl
  drop_orphans-table given documents = refl
  drop_orphans-table given curriculumbaselines = refl
  drop_orphans-table given baselinequestion = refl
  drop_orphans-table given grades = refl
  drop_orphans-table given levels = refl
  drop_orphans-table given lessons = refl
  drop_orphans-table given lessonlearnings = refl
  drop_orphans-table given lessonlearningdocuments = refl
  drop_orphans-table given lessonplans = refl
  drop_orphans-table given lessonpractices = refl
  drop_orphans-table given lessonquizzes = refl
  drop_orphans-table given lessonpracticequestions = refl
  drop_orphans-table given lessonquizquestions = refl
  drop_orphans-table given levelquizquestions = refl
  drop_orphans-table given contenttranslations = refl

  pub reachable-table :
      (given : Given) (k : TableKey)
      → same_key k contenttranslations ≡ false
      → reachable lower given k ≡ kept_rows lower (parent k) (reachable lower given) (given k)
  unfolding set_table ids_in reachable
  reachable-table given countries h = refl
  reachable-table given schools h = refl
  reachable-table given standards h = refl
  reachable-table given subjects h = refl
  reachable-table given curriculums h = refl
  reachable-table given questions h = refl
  reachable-table given documents h = refl
  reachable-table given curriculumbaselines h = refl
  reachable-table given baselinequestion h = refl
  reachable-table given grades h = refl
  reachable-table given levels h = refl
  reachable-table given lessons h = refl
  reachable-table given lessonlearnings h = refl
  reachable-table given lessonlearningdocuments h = refl
  reachable-table given lessonplans h = refl
  reachable-table given lessonpractices h = refl
  reachable-table given lessonquizzes h = refl
  reachable-table given lessonpracticequestions h = refl
  reachable-table given lessonquizquestions h = refl
  reachable-table given levelquizquestions h = refl
  reachable-table given contenttranslations h = absurd (ground arith)

  -- Each row of another table is untouched by the second loop.
  pub ids_in-untranslated :
      (given : Given) (k : TableKey)
      → same_key k contenttranslations ≡ false
      → ids_in lower k (drop_polymorphic lower plain_keys given)
        ≡ ids_in lower k (drop_polymorphic lower content_table_keys given)
  unfolding set_table ids_in
  ids_in-untranslated given countries h = refl
  ids_in-untranslated given schools h = refl
  ids_in-untranslated given standards h = refl
  ids_in-untranslated given subjects h = refl
  ids_in-untranslated given curriculums h = refl
  ids_in-untranslated given questions h = refl
  ids_in-untranslated given documents h = refl
  ids_in-untranslated given curriculumbaselines h = refl
  ids_in-untranslated given baselinequestion h = refl
  ids_in-untranslated given grades h = refl
  ids_in-untranslated given levels h = refl
  ids_in-untranslated given lessons h = refl
  ids_in-untranslated given lessonlearnings h = refl
  ids_in-untranslated given lessonlearningdocuments h = refl
  ids_in-untranslated given lessonplans h = refl
  ids_in-untranslated given lessonpractices h = refl
  ids_in-untranslated given lessonquizzes h = refl
  ids_in-untranslated given lessonpracticequestions h = refl
  ids_in-untranslated given lessonquizquestions h = refl
  ids_in-untranslated given levelquizquestions h = refl
  ids_in-untranslated given contenttranslations h = absurd (ground arith)

  pub drop_polymorphic-translations :
      (given : Given)
      → drop_polymorphic lower content_table_keys given contenttranslations
        ≡ over_rows
            (filter (has_parent lower translation_tables (drop_polymorphic lower plain_keys given)))
            (given contenttranslations)
  unfolding set_table
  drop_polymorphic-translations given = refl

  pub drop_orphans-translations :
      (given : Given)
      → drop_orphans lower content_table_keys given contenttranslations ≡ given contenttranslations
  unfolding set_table
  drop_orphans-translations given = refl

  module _ (parse : String → Option Value) where
    abbrev pub trim_lists : List IdList → Given → Option (List Row) → Option (List Row)
    trim_lists [] given rows = rows
    trim_lists (list ∷ lists) given rows =
        trim_lists lists given (trim_rows lower parse list given rows)

    pub trim-table :
        (given : Given) (k : TableKey)
        → trim_id_lists lower parse given k
          ≡ trim_lists (id_lists k) (trim_id_lists lower parse given) (given k)
    unfolding set_table ids_in trim_id_lists
    trim-table given countries = refl
    trim-table given schools = refl
    trim-table given standards = refl
    trim-table given subjects = refl
    trim-table given curriculums = refl
    trim-table given questions = refl
    trim-table given documents = refl
    trim-table given curriculumbaselines = refl
    trim-table given baselinequestion = refl
    trim-table given grades = refl
    trim-table given levels = refl
    trim-table given lessons = refl
    trim-table given lessonlearnings = refl
    trim-table given lessonlearningdocuments = refl
    trim-table given lessonplans = refl
    trim-table given lessonpractices = refl
    trim-table given lessonquizzes = refl
    trim-table given lessonpracticequestions = refl
    trim-table given lessonquizquestions = refl
    trim-table given levelquizquestions = refl
    trim-table given contenttranslations = refl
