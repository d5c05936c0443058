-- ===== src/Publication/Payload.antt =====
-- src/business/curriculum-publication.ts: the rows that a publication of one curriculum carries.
use edtech_lms_api.Prelude.{
  ℕ, String, Bool, true, false, not, ◌&&◌, ◌||◌, Option, none, some, List, [], ◌∷◌, ◌++◌, nat_eq,
  if◌then◌else◌, length, filter, all, head?,
}
use edtech_lms_api.Js.{Value, bool, num, str, get_field}
use edtech_lms_api.Session.{same_text}
use edtech_lms_api.Export.Keys.{
  Row, TableKey, countries, schools, standards, subjects, curriculums, questions, documents,
  contenttranslations, curriculum_content_keys, same_key, Reference, pk, parent, refs, key_of,
  key_at,
}
use edtech_lms_api.Export.Confine.{
  Given, set_table, Problem, Confined, refused, checked, keys_at, ids_in, is_among, table_at,
  confine,
}

-- `Tables`
abbrev pub Tables : Type 0
Tables = TableKey → List Row

pub record Payload : Type 0 where
  pub curriculumid : String
  pub organisationid : String
  pub tables : Tables

-- `tables` as the tables that `confine` is given; the four that a publication does not carry are
-- not among them.
abbrev pub given_of : Tables → Given
given_of tables countries = none
given_of tables schools = none
given_of tables standards = none
given_of tables subjects = none
given_of tables key = some (tables key)

-- `list ?? []`
abbrev pub rows_or_none : Option (List Row) → List Row
rows_or_none none = []
rows_or_none (some rows) = rows

abbrev pub nothing_picked : Given
nothing_picked key = none

abbrev pub is_bank : TableKey → Bool
is_bank questions = true
is_bank documents = true
is_bank _ = false

abbrev pub is_translations : TableKey → Bool
is_translations key = same_key key contenttranslations

-- `row.isdeleted === true || row.isdeleted === 1`
abbrev pub marks_deleted : Value → Bool
marks_deleted (bool b) = b
marks_deleted (num n) = nat_eq n 1
marks_deleted _ = false

-- `String(row.curriculumid)`; the column holds texts and nothing else.
abbrev pub id_text : Value → String
id_text (str s) = s
id_text _ = ""

unfoldable pub is_gone : Row → Bool
is_gone row = marks_deleted (get_field "isdeleted" row)

-- Why a curriculum cannot be published, or is not found.
pub data Unpublishable : Type 0 where
  no_curriculum : Unpublishable
  names_deleted_subject : ℕ → Unpublishable
  names_others : List Problem → Unpublishable
  hangs_outside : List TableKey → Unpublishable

pub data Built (A : Type 0) : Type 0 where
  refusal : Unpublishable → Built A
  built : A → Built A

abbrev pub rows_in : Given → Tables
rows_in given key = rows_or_none (given key)

-- The tables that `confine` left rows out of.
unfoldable pub shortened : Tables → Given → List TableKey
shortened tables confined =
    filter (λ key. not (nat_eq (length (rows_in confined key)) (length (tables key))))
      curriculum_content_keys

abbrev pub unless_shortened : Given → List TableKey → Built Tables
unless_shortened confined [] = built (rows_in confined)
unless_shortened confined (key ∷ keys) = refusal (hangs_outside (key ∷ keys))

abbrev pub unless_refused : Tables → Confined → Built Tables
unless_refused tables (refused problems) = refusal (names_others problems)
unless_refused tables (checked confined) = unless_shortened confined (shortened tables confined)

abbrev pub with_curriculum : {A : Type 0} → Option Row → (Row → Built A) → Built A
with_curriculum none rest = refusal no_curriculum
with_curriculum (some row) rest = if is_gone row then refusal no_curriculum else rest row

abbrev pub payload_with : String → String → Built Tables → Built Payload
payload_with organisationid curriculumid (refusal why) = refusal why
payload_with organisationid curriculumid (built tables) =
    built record { curriculumid = curriculumid; organisationid = organisationid; tables = tables }

module _ (lower : String → String) where
  -- The rows of a table that hang from the rows picked; nothing where the table that they hang from
  -- was not picked yet, which the code throws for.
  abbrev hanging_from : String → List Row → Option (List String) → Option (List Row)
  hanging_from fk rows none = none
  hanging_from fk rows (some ids) =
      some (filter (λ row. is_among lower ids (key_at lower fk row)) rows)

  abbrev pick_child : Option Reference → Given → List Row → Option (List Row)
  pick_child none picked rows = none
  pick_child (some up) picked rows = hanging_from up.fk rows (ids_in lower up.to picked)

  abbrev pick_table : Option String → TableKey → Given → List Row → Option (List Row)
  pick_table wanted curriculums picked rows =
      some (filter (λ row. same_text (key_at lower "curriculumid" row) wanted) rows)
  pick_table wanted questions picked rows = none
  pick_table wanted documents picked rows = none
  pick_table wanted contenttranslations picked rows = none
  pick_table wanted key picked rows = pick_child (parent key) picked rows

  -- The first loop: the curriculum, and the rows that hang from it.
  abbrev pub pick_trees : Option String → Tables → List TableKey → Given → Given
  pick_trees wanted all [] picked = picked
  pick_trees wanted all (key ∷ keys) picked =
      pick_trees wanted all keys (set_table key (pick_table wanted key picked (all key)) picked)

  -- The keys by which the rows of a table name rows of a bank.
  abbrev pub named_by_refs : TableKey → List Row → List Reference → List String
  named_by_refs bank rows [] = []
  named_by_refs bank rows (ref ∷ more) =
      (if same_key ref.to bank then keys_at lower ref.fk rows else [])
      ++ named_by_refs bank rows more

  unfoldable pub named_in_tables : TableKey → Given → List TableKey → List String
  named_in_tables bank picked [] = []
  named_in_tables bank picked (key ∷ keys) =
      (if is_bank key || is_translations key
        then []
        else named_by_refs bank (rows_or_none (picked key)) (refs key))
      ++ named_in_tables bank picked keys

  -- The reverse closure: the rows of a bank that the picked rows name.
  abbrev pub pick_bank : Tables → TableKey → Given → Given
  pick_bank all bank picked =
      set_table bank
        (some (
          filter
            (λ row.
              is_among lower (named_in_tables bank picked curriculum_content_keys)
                (key_at lower (pk bank) row))
            (all bank)))
        picked

  -- Is the row that a translation's table and id name picked?
  abbrev picked_in : Given → Option TableKey → Option String → Bool
  picked_in picked none id = false
  picked_in picked (some key) id =
      if is_translations key then false else is_among lower (or_none (ids_in lower key picked)) id
    where
      or_none : Option (List String) → List String
      or_none none = []
      or_none (some ids) = ids

  unfoldable pub is_translation_of : Given → Row → Bool
  is_translation_of picked row =
      picked_in picked (table_at lower curriculum_content_keys (get_field "tablename" row))
        (key_at lower "rowid" row)

  abbrev pub pick_translations : Tables → Given → Given
  pick_translations all picked =
      set_table contenttranslations
        (some (filter (is_translation_of picked) (all contenttranslations))) picked

  -- `selectCurriculumTables`
  unfoldable pub select_curriculum_tables : Tables → String → Given
  select_curriculum_tables all curriculumid =
      let trees =
        pick_trees (key_of lower (str curriculumid)) all curriculum_content_keys nothing_picked in
      pick_translations all (pick_bank all documents (pick_bank all questions trees))

  -- The columns of curricula that name a subject that has been deleted and is not live.
  unfoldable pub naming_deleted : List Row → List Row → List Row
  naming_deleted subject_rows rows =
      let live = keys_at lower "subjectid" (filter (λ row. not (is_gone row)) subject_rows) in
      let deleted = keys_at lower "subjectid" (filter is_gone subject_rows) in
      filter
        (λ row.
          is_among lower deleted (key_at lower "subjectid" row)
          && not (is_among lower live (key_at lower "subjectid" row)))
        rows

  module _ (parse : String → Option Value) where
    -- `confineCurriculumTables`
    unfoldable pub confine_curriculum_tables : Tables → List Row → Built Tables
    confine_curriculum_tables tables subject_rows =
        let naming = length (naming_deleted subject_rows (tables curriculums)) in
        let live = filter (λ row. not (is_gone row)) subject_rows in
        let outcome = confine lower parse (set_table subjects (some live) (given_of tables)) in
        if nat_eq naming 0
        then unless_refused tables outcome
        else refusal (names_deleted_subject naming)

    -- `payloadOfPicked`
    unfoldable pub payload_of_picked : String → Tables → List Row → Built Payload
    payload_of_picked organisationid picked subject_rows =
        with_curriculum (head? (picked curriculums)) (λ row.
          payload_with organisationid (id_text (get_field "curriculumid" row))
            (confine_curriculum_tables picked subject_rows))

    -- `payloadOf`
    unfoldable pub payload_of : String → Tables → String → List Row → Built Payload
    payload_of organisationid content curriculumid subject_rows =
        payload_of_picked organisationid (rows_in (select_curriculum_tables content curriculumid))
          subject_rows
