-- ===== src/Tests/Copies.antt =====
-- Two publications that share a question, and the tables of an export.
use edtech_lms_api.Prelude.{
  String, ◌≡◌, refl, sym, subst, inl, Bool, true, false, not, Option, none, some, List, [], ◌∷◌,
  arith, all, IsIn, ◌==◌, contains, IsPairwise,
}
use edtech_lms_api.Js.{Value, str, end, field, get_field}
use edtech_lms_api.Export.Keys.{
  Row, TableKey, schools, curriculums, questions, curriculumbaselines, baselinequestion,
  contenttranslations, curriculum_content_keys, Reference, pk, translation_tables, key_of, key_at,
}
use edtech_lms_api.Export.Confine.{
  Given, over_rows, set_table, Confined, refused, checked, keys_at, ids_in, is_among, table_at,
  has_parent, reachable, is_missing, problem_of, problems_of, trim_row, trim_id_lists, confine,
}
use edtech_lms_api.Export.Tables.{column_in}
use edtech_lms_api.Export.Closed.{confine-closed, confine-referenced}
use edtech_lms_api.Export.Translated.{confine-translations}
use edtech_lms_api.Publication.Payload.{Tables}
use edtech_lms_api.Publication.Merge.{
  PublishedSet, text_before, is_older_set, holds, winner, is_kept_translation, sent_order,
  merge_published,
}
use edtech_lms_api.Publication.Merged.{IsNewest}
use edtech_lms_api.Publication.Taken.{is_distinct}
use edtech_lms_api.Publication.Copies.{IsOther, merge_published-distinct, merge_published-IsNewest}
use edtech_lms_api.Publication.Served.{merge_published_complete, merge_published-translations}
use Prim.Native.Nat.{Ordering}

abbrev as_it_is : String → String
as_it_is s = s

abbrev parse : String → Option Value
parse s = none

abbrev all_equal : String → String → Ordering
all_equal a b = Ordering.eq

abbrev translation : Row
translation =
    field "translationid" (str "t1")
      (field "tablename" (str "questions") (field "rowid" (str "q1") end))

abbrev old_question : Row
old_question = field "questionid" (str "q1") end

abbrev new_question : Row
new_question = field "questionid" (str "q1") (field "questiontext" (str "new") end)

abbrev old_tables : Tables
old_tables questions = old_question ∷ []
old_tables contenttranslations = translation ∷ []
old_tables _ = []

abbrev new_tables : Tables
new_tables questions = new_question ∷ []
new_tables contenttranslations = translation ∷ []
new_tables _ = []

abbrev old_set : PublishedSet
old_set = record { publicationid = "p1"; curriculumid = "c1"; publishedat = 5; tables = old_tables }

abbrev new_set : PublishedSet
new_set = record { publicationid = "p2"; curriculumid = "c2"; publishedat = 7; tables = new_tables }

abbrev sets : List PublishedSet
sets = old_set ∷ new_set ∷ []

abbrev newest_questions : List Row
newest_questions = new_question ∷ []

merged_questions : merge_published as_it_is all_equal sets questions ≡ newest_questions
unfolding merge_published sent_order winner holds ◌==◌ key_at key_of get_field contains is_older_set
    text_before is_kept_translation
merged_questions = refl

sets_differ : IsPairwise IsOther sets
unfolding ◌==◌
sets_differ = ((refl, tt), (tt, tt))

merge_published-IsNewest_example :
    (s : PublishedSet) × (id : String) × (key_at as_it_is (pk questions) new_question ≡ some id)
    × IsIn new_question (s.tables questions)
    × IsNewest as_it_is questions id sets s
merge_published-IsNewest_example =
    merge_published-IsNewest as_it_is all_equal sets questions new_question refl sets_differ
      (subst (IsIn new_question) (sym merged_questions) (inl refl))

merge_published-distinct_example :
    is_distinct
      (keys_at as_it_is (pk questions) (merge_published as_it_is all_equal sets questions))
    ≡ true
merge_published-distinct_example = merge_published-distinct as_it_is all_equal sets questions refl

merge_published_complete_example :
    contains
      (keys_at as_it_is (pk questions) (merge_published as_it_is all_equal sets questions))
      "q1"
    ≡ true
unfolding merge_published sent_order winner holds ◌==◌ key_at key_of get_field contains is_older_set
    text_before is_kept_translation
merge_published_complete_example =
    merge_published_complete as_it_is all_equal sets questions "q1" old_set refl (inl refl) refl

abbrev sent_translations : List Row
sent_translations = translation ∷ []

merged_translations :
    merge_published as_it_is all_equal sets contenttranslations ≡ sent_translations
unfolding merge_published sent_order winner holds ◌==◌ key_at key_of get_field contains is_older_set
    text_before is_kept_translation
merged_translations = refl

merge_published-translations_example :
    (table : TableKey) × (id : String) × (table_at as_it_is curriculum_content_keys
        (get_field "tablename" translation)
      ≡ some table)
    × (key_at as_it_is "rowid" translation ≡ some id)
    × (contains (keys_at as_it_is (pk table) (merge_published as_it_is all_equal sets table)) id
        ≡ true)
merge_published-translations_example =
    merge_published-translations as_it_is all_equal sets translation
      (subst (IsIn translation) (sym merged_translations) (inl refl))

abbrev given_tables : Tables
given_tables schools = field "schoolid" (str "s1") end ∷ []
given_tables curriculums = field "curriculumid" (str "c1") end ∷ []
given_tables questions = old_question ∷ []
given_tables curriculumbaselines =
    field "curriculumbaselineid" (str "b1") (field "curriculumid" (str "c1") end)
    ∷ field "curriculumbaselineid" (str "b2") (field "curriculumid" (str "gone") end)
    ∷ []
given_tables baselinequestion =
    field "baselinequestionid" (str "l1")
      (field "curriculumbaselineid" (str "b1") (field "questionid" (str "q1") end))
    ∷ field "baselinequestionid" (str "l2")
        (field "curriculumbaselineid" (str "b2") (field "questionid" (str "q9") end))
    ∷ []
given_tables contenttranslations = translation ∷ []
given_tables _ = []

abbrev given : Given
given key = some (given_tables key)

abbrev given_or : Confined → Given
given_or (checked t) = t
given_or (refused ps) = given

abbrev is_checked : Confined → Bool
is_checked (checked t) = true
is_checked (refused ps) = false

checked_of : (c : Confined) → is_checked c ≡ true → c ≡ checked (given_or c)
checked_of (checked t) h = refl
checked_of (refused ps) h = absurd (ground arith)

abbrev outcome : Confined
outcome = confine as_it_is parse given

is_sent : is_checked outcome ≡ true
unfolding confine reachable set_table ids_in key_at key_of get_field ◌==◌ is_among contains
    over_rows problems_of problem_of trim_id_lists has_parent trim_row
is_sent = refl

abbrev baseline_ids : List String
baseline_ids = "b1" ∷ []

abbrev to_baseline : Reference
to_baseline = record { fk = "curriculumbaselineid"; to = curriculumbaselines; optional = false }

sent_baselines : ids_in as_it_is curriculumbaselines (given_or outcome) ≡ some baseline_ids
unfolding confine reachable set_table ids_in key_at key_of get_field ◌==◌ is_among contains
    over_rows problems_of problem_of trim_id_lists has_parent trim_row
sent_baselines = refl

confine-closed_example :
    all
      (is_among as_it_is baseline_ids)
      (column_in as_it_is "curriculumbaselineid" baselinequestion (given_or outcome))
    ≡ true
confine-closed_example =
    confine-closed as_it_is parse given (given_or outcome) baselinequestion to_baseline baseline_ids
      (checked_of outcome is_sent) refl sent_baselines

abbrev question_ids : List String
question_ids = "q1" ∷ []

abbrev to_question : Reference
to_question = record { fk = "questionid"; to = questions; optional = false }

sent_questions : ids_in as_it_is questions (given_or outcome) ≡ some question_ids
unfolding confine reachable set_table ids_in key_at key_of get_field ◌==◌ is_among contains
    over_rows problems_of problem_of trim_id_lists has_parent trim_row
sent_questions = refl

confine-referenced_example :
    all
      (λ id. not (is_missing as_it_is to_question question_ids id))
      (column_in as_it_is "questionid" baselinequestion (given_or outcome))
    ≡ true
confine-referenced_example =
    confine-referenced as_it_is parse given (given_or outcome) baselinequestion to_question
      question_ids (checked_of outcome is_sent) (inl refl) sent_questions

translations_sent : given_or outcome contenttranslations ≡ some sent_translations
unfolding confine reachable set_table ids_in key_at key_of get_field ◌==◌ is_among contains
    over_rows problems_of problem_of trim_id_lists has_parent trim_row
translations_sent = refl

confine-translations_example :
    all (has_parent as_it_is translation_tables (given_or outcome)) sent_translations ≡ true
confine-translations_example =
    confine-translations as_it_is parse given (given_or outcome) sent_translations
      (checked_of outcome is_sent) translations_sent
