-- ===== src/Tests/Publications.antt =====
-- A curriculum with one grade and one question, published twice.
use edtech_lms_api.Prelude.{
  ℕ, String, ◌≡◌, refl, sym, ap, ◌∙◌, inl, inr, Bool, true, false, Option, none, some, [], ◌∷◌,
  arith, any, head?, IsIn, ◌==◌, eq_of, contains,
}
use edtech_lms_api.Js.{str, end, field, get_field}
use edtech_lms_api.Errors.{Result, err, ok, is_ok}
use edtech_lms_api.Tests.{exact, school_caller}
use edtech_lms_api.Tests.Lessons.{content}
use edtech_lms_api.Scope.{scope_of}
use edtech_lms_api.Store.{Collation}
use edtech_lms_api.Content.{column}
use edtech_lms_api.Content.Kinds.{in_scope, assert_in_scope}
use edtech_lms_api.Export.Keys.{
  Row, curriculums, questions, grades, contenttranslations, key_of, key_at,
}
use edtech_lms_api.Export.Confine.{
  over_rows, set_table, ids_in, is_among, has_parent, reachable, problem_of, problems_of,
  trim_id_lists, answer, confine,
}
use edtech_lms_api.Publication.Payload.{
  Tables, Payload, is_gone, shortened, named_in_tables, is_translation_of, select_curriculum_tables,
  naming_deleted, confine_curriculum_tables, payload_of_picked, payload_of,
}
use edtech_lms_api.Publication.Hashes.{Entries, hash_at, diff_entries}
use edtech_lms_api.Publication.Changes.{diff_entries-same}
use edtech_lms_api.Publication.Shelf.{Publication, Shelf, newest_first, history, latest_of}
use edtech_lms_api.Publication.Reading.{
  publishing_organisation, published_meanwhile, Reading, next_time,
}
use edtech_lms_api.Publication.Publish.{
  publish_read, is_live_row, find_curriculum, may_publish, published_row, publish_writes,
  publish_commit,
}
use edtech_lms_api.Publication.Sound.{IsSound}
use edtech_lms_api.Publication.Retention.{retained, publish_commit-history}
use edtech_lms_api.Publication.Turns.{publish_commit-second}
use edtech_lms_api.Publication.Reads.{publish_commit-respelled}
use edtech_lms_api.Publication.States.{publish_commit_undisturbed}
use edtech_lms_api.Publication.Reach.{Language, publishes, Run, start, then, Run-IsSound}

abbrev pub language : Language
language = record {
  lower = λ s. s;
  parse = λ s. none;
  text = λ row. "row";
  sha256 = λ s. s;
  payload_hash = λ hashes. "hash";
}

abbrev pub tables : Tables
tables curriculums = field "curriculumid" (str "c1") end ∷ []
tables questions = field "questionid" (str "q1") end ∷ []
tables grades = field "gradeid" (str "g1") (field "curriculumid" (str "c1") end) ∷ []
tables contenttranslations =
    field "translationid" (str "t1")
      (field "tablename" (str "grades") (field "rowid" (str "g1") end))
    ∷ []
tables _ = []

abbrev pub first_shelf : Shelf
first_shelf = record {
  publications = [];
  curricula = record { curriculumid = "c1"; organisationid = some "o1"; isdeleted = false } ∷ [];
}

abbrev no_payload : Payload
no_payload = record { curriculumid = "c1"; organisationid = "o1"; tables = λ key. [] }

abbrev pub reading_or : Result Reading → Reading
reading_or (ok r) = r
reading_or (err e) = record {
  organisationid = "o1";
  noted = none;
  payload = no_payload;
  hashes = λ key. [];
  payloadhash = "";
}

abbrev pub answer_or : Result (String × ℕ × Shelf) → String × ℕ × Shelf
answer_or (ok answer) = answer
answer_or (err e) = ("", 0, first_shelf)

reading_of : (r : Result Reading) → is_ok r ≡ true → r ≡ ok (reading_or r)
reading_of (ok r) h = refl
reading_of (err e) h = absurd (ground arith)

pub answer_of : (r : Result (String × ℕ × Shelf)) → is_ok r ≡ true → r ≡ ok (answer_or r)
answer_of (ok r) h = refl
answer_of (err e) h = absurd (ground arith)

abbrev read : Shelf → Result Reading
read shelf =
    publish_read exact language.lower language.parse language.text language.sha256
      language.payload_hash content school_caller "c1" tables [] shelf

abbrev reading : Reading
reading = reading_or (read first_shelf)

abbrev second : Result (String × ℕ × Shelf)
second = publish_commit exact "c1" "u2" 5 "p1" reading first_shelf

abbrev pub second_shelf : Shelf
second_shelf = (answer_or second).2

abbrev pub next_reading : Reading
next_reading = reading_or (read second_shelf)

-- The next publish comes at the same time by the clock.
abbrev pub third : Result (String × ℕ × Shelf)
third = publish_commit exact "c1" "u2" 5 "p2" next_reading second_shelf

abbrev pub third_shelf : Shelf
third_shelf = (answer_or third).2

first_reads : is_ok (read first_shelf) ≡ true
unfolding publish_read publishing_organisation assert_in_scope in_scope scope_of column payload_of
    payload_of_picked select_curriculum_tables set_table ◌==◌ key_at get_field ids_in is_gone
    contains key_of confine_curriculum_tables naming_deleted is_among confine problems_of reachable
    over_rows problem_of shortened trim_id_lists named_in_tables is_translation_of has_parent
first_reads = refl

first_commits : is_ok second ≡ true
unfolding may_publish publish_commit history newest_first publish_writes publish_read
    publishing_organisation assert_in_scope in_scope scope_of column payload_of payload_of_picked
    select_curriculum_tables set_table ◌==◌ key_at get_field ids_in is_gone contains key_of
    confine_curriculum_tables naming_deleted is_among confine problems_of reachable over_rows
    problem_of shortened trim_id_lists named_in_tables is_translation_of has_parent latest_of
first_commits = refl

one_call : Run exact language first_shelf second_shelf
one_call = then start (
    publishes content school_caller "c1" "u2" 5 "p1" (answer_or second).0 (answer_or second).1
      tables [] first_shelf reading (reading_of (read first_shelf) first_reads)
      (answer_of second first_commits))

Run-IsSound_example : IsSound exact second_shelf
Run-IsSound_example =
    Run-IsSound exact language (λ a b h. eq_of a b h) first_shelf second_shelf refl one_call

next_reads : is_ok (read second_shelf) ≡ true
unfolding may_publish publish_commit history newest_first publish_writes publish_read
    publishing_organisation assert_in_scope in_scope scope_of column payload_of payload_of_picked
    select_curriculum_tables set_table ◌==◌ key_at get_field ids_in is_gone contains key_of
    confine_curriculum_tables naming_deleted is_among confine problems_of reachable over_rows
    problem_of shortened trim_id_lists named_in_tables is_translation_of has_parent latest_of
next_reads = refl

pub next_commits : is_ok third ≡ true
unfolding may_publish publish_commit history newest_first publish_writes publish_read
    publishing_organisation assert_in_scope in_scope scope_of column payload_of payload_of_picked
    select_curriculum_tables set_table ◌==◌ key_at get_field ids_in is_gone contains key_of
    confine_curriculum_tables naming_deleted is_among confine problems_of reachable over_rows
    problem_of shortened trim_id_lists named_in_tables is_translation_of has_parent latest_of
next_commits = refl

next_ours : exact.matches next_reading.payload.curriculumid "c1" ≡ true
unfolding may_publish publish_commit history newest_first publish_writes publish_read
    publishing_organisation assert_in_scope in_scope scope_of column payload_of payload_of_picked
    select_curriculum_tables set_table ◌==◌ key_at get_field ids_in is_gone contains key_of
    confine_curriculum_tables naming_deleted is_among confine problems_of reachable over_rows
    problem_of shortened trim_id_lists named_in_tables is_translation_of has_parent latest_of
next_ours = refl

pub second-IsSound : IsSound exact second_shelf
second-IsSound =
    Run-IsSound exact language (λ a b h. eq_of a b h) first_shelf second_shelf refl one_call

publish_commit-history_example :
    history exact "c1" third_shelf
    ≡ published_row exact "u2" 5 "p2" next_reading (history exact "c1" second_shelf)
      ∷ retained (history exact "c1" second_shelf)
publish_commit-history_example =
    publish_commit-history exact "c1" "u2" 5 "p2" next_reading second_shelf third_shelf
      (answer_or third).0 (answer_or third).1 second-IsSound next_ours
      (answer_of third next_commits)

-- Someone else read the same shelf as the publish that has committed.
publish_commit-second_example :
    publish_commit exact "c1" "u3" 6 "p3" next_reading third_shelf ≡ err published_meanwhile
publish_commit-second_example =
    publish_commit-second exact "c1" "u2" "u3" 5 6 "p2" "p3" next_reading next_reading second_shelf
      third_shelf (answer_or third).0 (answer_or third).1 second-IsSound next_ours refl
      (answer_of third next_commits)

next_live : is_live_row exact (find_curriculum exact "c1" second_shelf) ≡ true
unfolding may_publish publish_commit history newest_first publish_writes publish_read
    publishing_organisation assert_in_scope in_scope scope_of column payload_of payload_of_picked
    select_curriculum_tables set_table ◌==◌ key_at get_field ids_in is_gone contains key_of
    confine_curriculum_tables naming_deleted is_among confine problems_of reachable over_rows
    problem_of shortened trim_id_lists named_in_tables is_translation_of has_parent latest_of
next_live = refl

abbrev spells : Option Publication → Bool
spells none = true
spells (some p) = p.curriculumid == "c1"

next_spells : spells (head? (history exact "c1" second_shelf)) ≡ true
unfolding may_publish publish_commit history newest_first publish_writes publish_read
    publishing_organisation assert_in_scope in_scope scope_of column payload_of payload_of_picked
    select_curriculum_tables set_table ◌==◌ key_at get_field ids_in is_gone contains key_of
    confine_curriculum_tables naming_deleted is_among confine problems_of reachable over_rows
    problem_of shortened trim_id_lists named_in_tables is_translation_of has_parent latest_of
next_spells = refl

next_free : any (λ p. exact.matches p.publicationid "p2") second_shelf.publications ≡ false
unfolding may_publish publish_commit history newest_first publish_writes publish_read
    publishing_organisation assert_in_scope in_scope scope_of column payload_of payload_of_picked
    select_curriculum_tables set_table ◌==◌ key_at get_field ids_in is_gone contains key_of
    confine_curriculum_tables naming_deleted is_among confine problems_of reachable over_rows
    problem_of shortened trim_id_lists named_in_tables is_translation_of has_parent latest_of
next_free = refl

publish_commit_undisturbed_example :
    (after : Shelf) × (publish_commit exact "c1" "u2" 5 "p2" next_reading second_shelf
      ≡ ok ("p2", next_time 5 (head? (history exact "c1" second_shelf)), after))
publish_commit_undisturbed_example =
    publish_commit_undisturbed exact language content school_caller "c1" tables [] "u2" 5 "p2"
      next_reading second_shelf (reading_of (read second_shelf) next_reads) next_live
      (λ p e. ap spells (sym e) ∙ next_spells) next_free

-- A comparison, and a lower case, that take every text for the same.
abbrev loose : Collation
loose = record {
  matches = λ s t. true;
  matches_refl = λ s. refl;
  matches_sym = λ s t h. refl;
  matches_trans = λ s t u h g. refl;
}

abbrev respelled : Result Reading
respelled =
    publish_read loose (λ s. "c1") language.parse language.text language.sha256
      language.payload_hash content school_caller "C1" tables [] second_shelf

respelled_reads : is_ok respelled ≡ true
unfolding may_publish publish_commit history newest_first publish_writes publish_read
    publishing_organisation assert_in_scope in_scope scope_of column payload_of payload_of_picked
    select_curriculum_tables set_table ◌==◌ key_at get_field ids_in is_gone contains key_of
    confine_curriculum_tables naming_deleted is_among confine problems_of reachable over_rows
    problem_of shortened trim_id_lists named_in_tables is_translation_of has_parent latest_of
respelled_reads = refl

abbrev latest_or : Option Publication → Publication
latest_or (some p) = p
latest_or none = published_row exact "" 0 "" reading []

abbrev stored : Publication
stored = latest_or (head? (history loose "C1" second_shelf))

stored_latest : head? (history loose "C1" second_shelf) ≡ some stored
unfolding may_publish publish_commit history newest_first publish_writes publish_read
    publishing_organisation assert_in_scope in_scope scope_of column payload_of payload_of_picked
    select_curriculum_tables set_table ◌==◌ key_at get_field ids_in is_gone contains key_of
    confine_curriculum_tables naming_deleted is_among confine problems_of reachable over_rows
    problem_of shortened trim_id_lists named_in_tables is_translation_of has_parent latest_of
stored_latest = refl

none_spelled_so :
    (p : Publication) → IsIn p second_shelf.publications → (p.curriculumid == "C1") ≡ false
unfolding may_publish publish_commit history newest_first publish_writes publish_read
    publishing_organisation assert_in_scope in_scope scope_of column payload_of payload_of_picked
    select_curriculum_tables set_table ◌==◌ key_at get_field ids_in is_gone contains key_of
    confine_curriculum_tables naming_deleted is_among confine problems_of reachable over_rows
    problem_of shortened trim_id_lists named_in_tables is_translation_of has_parent latest_of
none_spelled_so p (inl same) = ap (λ q. q.curriculumid == "C1") (sym same)
none_spelled_so p (inr m) = absurd m

respelled_live : is_live_row loose (find_curriculum loose "C1" second_shelf) ≡ true
unfolding may_publish publish_commit history newest_first publish_writes publish_read
    publishing_organisation assert_in_scope in_scope scope_of column payload_of payload_of_picked
    select_curriculum_tables set_table ◌==◌ key_at get_field ids_in is_gone contains key_of
    confine_curriculum_tables naming_deleted is_among confine problems_of reachable over_rows
    problem_of shortened trim_id_lists named_in_tables is_translation_of has_parent latest_of
respelled_live = refl

publish_commit-respelled_example :
    publish_commit loose "C1" "u2" 9 "p9" (reading_or respelled) second_shelf
    ≡ err published_meanwhile
publish_commit-respelled_example =
    publish_commit-respelled loose (λ s. "c1") language.parse language.text language.sha256
      language.payload_hash content school_caller "C1" tables [] second_shelf (reading_or respelled)
      "u2" 9 "p9" stored (reading_of respelled respelled_reads) respelled_live stored_latest
      none_spelled_so

abbrev entries : Entries
entries = ("q1", "h1") ∷ []

diff_entries-same_example : hash_at "q1" entries ≡ hash_at "q1" entries
unfolding diff_entries ◌==◌
diff_entries-same_example = (diff_entries-same entries entries).0 refl "q1"

abbrev question_row : Row
question_row = field "questionid" (str "q1") end

abbrev audit_column : String
audit_column = "updated_at"
