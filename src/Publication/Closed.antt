-- ===== src/Publication/Closed.antt =====
-- src/business/curriculum-publication.ts: the rows of a payload hang from rows of the payload.
use edtech_lms_api.Prelude.{
  String, ◌≡◌, refl, sym, ap, ◌∙◌, inl, inr, Bool, true, false, not, Option, none, some, List, [],
  ◌∷◌, map, arith, nat_eq, if◌then◌else◌, Option-cases, not-true, is_some, length, filter, all,
}
use edtech_lms_api.Js.{Value}
use edtech_lms_api.Export.Keys.{
  Row, TableKey, countries, schools, standards, subjects, curriculums, questions, documents,
  curriculumbaselines, baselinequestion, grades, levels, lessons, lessonlearnings,
  lessonlearningdocuments, lessonplans, lessonpractices, lessonquizzes, lessonpracticequestions,
  lessonquizquestions, levelquizquestions, contenttranslations, same_key, Reference, pk, parent,
  IdList, id_lists, key_at,
}
use edtech_lms_api.Export.Confine.{
  Given, over_rows, set_table, Confined, refused, checked, keys_at, ids_in, is_among, kept_rows,
  reachable, trimmed_by, trim_rows, trim_id_lists, confine,
}
use edtech_lms_api.Export.Tables.{names_of, reachable-table, trim_lists, trim-table}
use edtech_lms_api.Export.Closed.{answer-checked, confine-closed}
use edtech_lms_api.Publication.Payload.{
  Tables, Payload, given_of, rows_or_none, is_gone, names_deleted_subject, Built, refusal, built,
  rows_in, shortened, unless_shortened, unless_refused, payload_with, select_curriculum_tables,
  naming_deleted, confine_curriculum_tables, payload_of_picked, payload_of,
}
use edtech_lms_api.Publication.Runs.{with_curriculum-built, built-injective}

-- Is the table one of a publication's?
abbrev pub is_carried : TableKey → Bool
is_carried countries = false
is_carried schools = false
is_carried standards = false
is_carried subjects = false
is_carried key = true

-- The tables that a payload's rows are checked against.
abbrev sources : Tables → List Row → Given
sources tables live = set_table subjects (some live) (given_of tables)

abbrev to_given : Tables → List Row → Option Reference → Bool
to_given tables live none = true
to_given tables live (some r) = is_some (sources tables live r.to)

to_given-carried :
    (tables : Tables) (live : List Row) (k : TableKey)
    → is_carried k ≡ true
    → to_given tables live (parent k) ≡ true
unfolding set_table
to_given-carried tables live countries h = absurd (ground (arith, h))
to_given-carried tables live schools h = absurd (ground (arith, h))
to_given-carried tables live standards h = absurd (ground (arith, h))
to_given-carried tables live subjects h = absurd (ground (arith, h))
to_given-carried tables live curriculums h = refl
to_given-carried tables live questions h = refl
to_given-carried tables live documents h = refl
to_given-carried tables live curriculumbaselines h = refl
to_given-carried tables live baselinequestion h = refl
to_given-carried tables live grades h = refl
to_given-carried tables live levels h = refl
to_given-carried tables live lessons h = refl
to_given-carried tables live lessonlearnings h = refl
to_given-carried tables live lessonlearningdocuments h = refl
to_given-carried tables live lessonplans h = refl
to_given-carried tables live lessonpractices h = refl
to_given-carried tables live lessonquizzes h = refl
to_given-carried tables live lessonpracticequestions h = refl
to_given-carried tables live lessonquizquestions h = refl
to_given-carried tables live levelquizquestions h = refl
to_given-carried tables live contenttranslations h = refl

-- No row hangs from a translation.
abbrev plain_target : Option Reference → Bool
plain_target none = true
plain_target (some r) = not (same_key r.to contenttranslations)

plain_targets : (k : TableKey) → plain_target (parent k) ≡ true
plain_targets countries = refl
plain_targets schools = refl
plain_targets standards = refl
plain_targets subjects = refl
plain_targets curriculums = refl
plain_targets questions = refl
plain_targets documents = refl
plain_targets curriculumbaselines = refl
plain_targets baselinequestion = refl
plain_targets grades = refl
plain_targets levels = refl
plain_targets lessons = refl
plain_targets lessonlearnings = refl
plain_targets lessonlearningdocuments = refl
plain_targets lessonplans = refl
plain_targets lessonpractices = refl
plain_targets lessonquizzes = refl
plain_targets lessonpracticequestions = refl
plain_targets lessonquizquestions = refl
plain_targets levelquizquestions = refl
plain_targets contenttranslations = refl

unless_shortened-built :
    (confined : Given) (keys : List TableKey) (tables : Tables)
    → unless_shortened confined keys ≡ built tables
    → tables ≡ rows_in confined
unless_shortened-built confined [] tables h = sym (built-injective h)
unless_shortened-built confined (key ∷ keys) tables h = absurd (ground arith)

unless_refused-built :
    (picked : Tables) (outcome : Confined) (tables : Tables)
    → unless_refused picked outcome ≡ built tables
    → (confined : Given) × (outcome ≡ checked confined) × (tables ≡ rows_in confined)
unless_refused-built picked (refused problems) tables h = absurd (ground arith)
unless_refused-built picked (checked confined) tables h =
    (confined, refl, unless_shortened-built confined (shortened picked confined) tables h)

payload_with-built :
    (organisationid curriculumid : String) (tables : Built Tables) (payload : Payload)
    → payload_with organisationid curriculumid tables ≡ built payload
    → tables ≡ built payload.tables
payload_with-built organisationid curriculumid (refusal why) payload h = absurd (ground arith)
payload_with-built organisationid curriculumid (built tables) payload h =
    ap (λ p. built p.tables) (built-injective h)

module _ (lower : String → String) (parse : String → Option Value) where
  confine_curriculum_tables-built :
      (picked : Tables) (subject_rows : List Row) (tables : Tables)
      → confine_curriculum_tables lower parse picked subject_rows ≡ built tables
      → (confined : Given) × (confine lower parse
            (sources picked (filter (λ row. not (is_gone row)) subject_rows))
          ≡ checked confined)
        × (tables ≡ rows_in confined)
  unfolding confine_curriculum_tables
  confine_curriculum_tables-built picked subject_rows tables h =
      unless_refused-built picked _ tables
        (by_naming (nat_eq (length (naming_deleted lower subject_rows (picked curriculums))) 0) h)
    where
      by_naming :
          (b : Bool)
          → (if b
              then unless_refused picked (
                  confine lower parse
                    (sources picked (filter (λ row. not (is_gone row)) subject_rows)))
              else refusal (
                  names_deleted_subject
                    (length (naming_deleted lower subject_rows (picked curriculums)))))
            ≡ built tables
          → unless_refused picked (
              confine lower parse (sources picked (filter (λ row. not (is_gone row)) subject_rows)))
            ≡ built tables
      by_naming true q = q
      by_naming false q = absurd (ground arith)

  over_rows-given :
      (f : List Row → List Row) (rows : Option (List Row))
      → is_some (over_rows f rows) ≡ is_some rows
  unfolding over_rows
  over_rows-given f none = refl
  over_rows-given f (some rows) = refl

  trim_lists-given :
      (lists : List IdList) (given : Given) (rows : Option (List Row))
      → is_some (trim_lists lower parse lists given rows) ≡ is_some rows
  trim_lists-given [] given rows = refl
  trim_lists-given (list ∷ lists) given rows =
      trim_lists-given lists given (trim_rows lower parse list given rows)
      ∙ trimmed_by-given (ids_in lower list.to given)
    where
      trimmed_by-given :
          (ids : Option (List String))
          → is_some (trimmed_by lower parse list.column ids rows) ≡ is_some rows
      trimmed_by-given none = refl
      trimmed_by-given (some ids) = over_rows-given _ rows

  -- A table that was given is given after the check.
  confine-given :
      (given confined : Given) (k : TableKey)
      → confine lower parse given ≡ checked confined
      → same_key k contenttranslations ≡ false
      → is_some (confined k) ≡ is_some (given k)
  unfolding confine
  confine-given given confined k h plain =
      let (none_wrong, same) = answer-checked lower parse (reachable lower given) confined _ h in
      ap (λ (t : Given). is_some (t k)) same
      ∙ ap is_some (trim-table lower parse (reachable lower given) k)
      ∙ trim_lists-given (id_lists k) (trim_id_lists lower parse (reachable lower given))
          (reachable lower given k)
      ∙ ap is_some (reachable-table lower given k plain)
      ∙ kept (parent k)
    where
      kept :
          (up : Option Reference)
          → is_some (kept_rows lower up (reachable lower given) (given k)) ≡ is_some (given k)
      kept none = refl
      kept (some up) = over_rows-given _ (given k)

  names_of-rows :
      (column : String) (rows : Option (List Row))
      → names_of lower column rows ≡ map (key_at lower column) (rows_or_none rows)
  names_of-rows column none = refl
  names_of-rows column (some rows) = refl

  ids_in-rows :
      (given : Given) (k : TableKey)
      → is_some (given k) ≡ true
      → ids_in lower k given ≡ some (keys_at lower (pk k) (rows_in given k))
  unfolding ids_in
  ids_in-rows given k h = elim (Option-cases (given k)) [
    | inl e ↦ absurd (ground (arith, e))
    | inr (rows, e) ↦ rw (e) refl
  ]

  target-plain :
      (k : TableKey) (r : Reference) → parent k ≡ some r → same_key r.to contenttranslations ≡ false
  target-plain k r h =
      not-true (same_key r.to contenttranslations) (ap (plain_target) (sym h) ∙ plain_targets k)

  -- Each row of a payload that hangs from another row names one of the payload.
  pub payload_of-closed :
      (organisationid : String) (content : Tables) (id : String) (subject_rows : List Row)
      (payload : Payload) (k : TableKey) (r : Reference)
      → payload_of lower parse organisationid content id subject_rows ≡ built payload
      → is_carried k ≡ true
      → parent k ≡ some r
      → all
          (is_among lower (keys_at lower (pk r.to) (payload.tables r.to)))
          (map (key_at lower r.fk) (payload.tables k))
        ≡ true
  unfolding payload_of payload_of_picked
  payload_of-closed organisationid content id subject_rows payload k r h carried up =
      let picked = rows_in (select_curriculum_tables lower content id) in
      let (row, first, made) = with_curriculum-built _ _ payload h in
      let (confined, passed, same) =
        confine_curriculum_tables-built picked subject_rows payload.tables
          (payload_with-built organisationid _ _ payload made) in
      let live = filter (λ row. not (is_gone row)) subject_rows in
      let there =
        confine-given (sources picked live) confined r.to passed (target-plain k r up)
        ∙ ap (to_given picked live) (sym up)
        ∙ to_given-carried picked live k carried in
      ap
        (λ (t : Tables).
          all (is_among lower (keys_at lower (pk r.to) (t r.to))) (map (key_at lower r.fk) (t k)))
        same
      ∙ ap (all (is_among lower (keys_at lower (pk r.to) (rows_in confined r.to))))
          (sym (names_of-rows r.fk (confined k)))
      ∙ confine-closed lower parse (sources picked live) confined k r _ passed up
          (ids_in-rows confined r.to there)
