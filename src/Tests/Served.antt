-- ===== src/Tests/Served.antt =====
-- What learners are served of the curriculum that was published, and of one that was retired.
use edtech_lms_api.Prelude.{
  ◌≡◌, refl, inl, Bool, true, false, not, some, List, [], ◌∷◌, map, arith, all, IsIn, ◌==◌,
  contains,
}
use edtech_lms_api.Js.{get_field}
use edtech_lms_api.Errors.{Result, err, ok, is_ok}
use edtech_lms_api.Tests.{exact, school_caller}
use edtech_lms_api.Tests.Lessons.{content}
use edtech_lms_api.Scope.{scope_of}
use edtech_lms_api.Content.{column}
use edtech_lms_api.Content.Kinds.{in_scope, assert_in_scope}
use edtech_lms_api.Export.Keys.{curriculums, grades, Reference, key_of, key_at}
use edtech_lms_api.Export.Confine.{
  over_rows, set_table, keys_at, ids_in, is_among, has_parent, reachable, problem_of, problems_of,
  trim_id_lists, answer, confine,
}
use edtech_lms_api.Publication.Payload.{
  Payload, is_gone, Built, refusal, built, shortened, named_in_tables, is_translation_of,
  select_curriculum_tables, naming_deleted, confine_curriculum_tables, payload_of_picked,
  payload_of,
}
use edtech_lms_api.Publication.Shelf.{
  published, Publication, CurriculumRow, Shelf, newest_first, PublicationState, never, state,
  history, latest_of, publication_states, withdraw_publications,
}
use edtech_lms_api.Publication.Reading.{publishing_organisation}
use edtech_lms_api.Publication.Publish.{
  publish_read, may_publish, publish_writes, publish_commit, retire_curriculum,
}
use edtech_lms_api.Publication.Merge.{PublishedSet}
use edtech_lms_api.Publication.Sets.{
  payload_or_none, latest_published, live_published, set_of, read_published_sets,
}
use edtech_lms_api.Publication.Shown.{IsRowOf, retire_curriculum-served}
use edtech_lms_api.Publication.MadeOf.{IsMadeOf, read_published_sets-IsMadeOf}
use edtech_lms_api.Publication.Closed.{payload_of-closed}
use edtech_lms_api.Publication.States.{publish_commit-state}
use edtech_lms_api.Tests.Publications.{
  language, tables, first_shelf, answer_or, answer_of, second_shelf, next_reading, third,
  third_shelf, next_commits, second-IsSound,
}

abbrev served_or : Result (List PublishedSet) → List PublishedSet
served_or (ok made) = made
served_or (err e) = []

served_of : (r : Result (List PublishedSet)) → is_ok r ≡ true → r ≡ ok (served_or r)
served_of (ok made) h = refl
served_of (err e) h = absurd (ground arith)

abbrev one_set : PublishedSet
one_set = record { publicationid = ""; curriculumid = ""; publishedat = 0; tables = λ key. [] }

abbrev first_or : List PublishedSet → PublishedSet
first_or [] = one_set
first_or (s ∷ made) = s

abbrev has_one : List PublishedSet → Bool
has_one [] = false
has_one (s ∷ made) = true

first_of : (made : List PublishedSet) → has_one made ≡ true → IsIn (first_or made) made
first_of [] h = absurd (ground arith)
first_of (s ∷ made) h = inl refl

abbrev served : Result (List PublishedSet)
served = read_published_sets exact language.lower "o1" second_shelf

is_served : is_ok served ≡ true
unfolding may_publish publish_commit history newest_first publish_writes publish_read
    publishing_organisation assert_in_scope in_scope scope_of column payload_of payload_of_picked
    select_curriculum_tables set_table ◌==◌ key_at get_field ids_in is_gone contains key_of
    confine_curriculum_tables naming_deleted is_among confine problems_of reachable over_rows
    problem_of shortened trim_id_lists named_in_tables is_translation_of has_parent latest_of
    read_published_sets live_published latest_published set_of retire_curriculum
    withdraw_publications
is_served = refl

one_served : has_one (served_or served) ≡ true
unfolding may_publish publish_commit history newest_first publish_writes publish_read
    publishing_organisation assert_in_scope in_scope scope_of column payload_of payload_of_picked
    select_curriculum_tables set_table ◌==◌ key_at get_field ids_in is_gone contains key_of
    confine_curriculum_tables naming_deleted is_among confine problems_of reachable over_rows
    problem_of shortened trim_id_lists named_in_tables is_translation_of has_parent latest_of
    read_published_sets live_published latest_published set_of retire_curriculum
    withdraw_publications
one_served = refl

read_published_sets-IsMadeOf_example :
    (p : Publication) × IsMadeOf exact language.lower "o1" second_shelf
      (first_or (served_or served))
      p
    × ((row : CurriculumRow) × IsRowOf exact language.lower "o1" second_shelf p row)
read_published_sets-IsMadeOf_example =
    read_published_sets-IsMadeOf exact language.lower "o1" second_shelf (served_or served)
      (first_or (served_or served)) second-IsSound.apart (served_of served is_served)
      (first_of (served_or served) one_served)

abbrev retired : Result ((Bool × PublicationState) × Shelf)
retired = retire_curriculum exact content school_caller "c1" second_shelf

abbrev retired_or : Result ((Bool × PublicationState) × Shelf) → (Bool × PublicationState) × Shelf
retired_or (ok answer) = answer
retired_or (err e) = ((false, never), first_shelf)

retired_of :
    (r : Result ((Bool × PublicationState) × Shelf)) → is_ok r ≡ true → r ≡ ok (retired_or r)
retired_of (ok answer) h = refl
retired_of (err e) h = absurd (ground arith)

retires_first : is_ok retired ≡ true
unfolding may_publish publish_commit history newest_first publish_writes publish_read
    publishing_organisation assert_in_scope in_scope scope_of column payload_of payload_of_picked
    select_curriculum_tables set_table ◌==◌ key_at get_field ids_in is_gone contains key_of
    confine_curriculum_tables naming_deleted is_among confine problems_of reachable over_rows
    problem_of shortened trim_id_lists named_in_tables is_translation_of has_parent latest_of
    read_published_sets live_published latest_published set_of retire_curriculum
    withdraw_publications
retires_first = refl

abbrev served_after : Result (List PublishedSet)
served_after = read_published_sets exact language.lower "o1" (retired_or retired).1

is_served_after : is_ok served_after ≡ true
unfolding may_publish publish_commit history newest_first publish_writes publish_read
    publishing_organisation assert_in_scope in_scope scope_of column payload_of payload_of_picked
    select_curriculum_tables set_table ◌==◌ key_at get_field ids_in is_gone contains key_of
    confine_curriculum_tables naming_deleted is_among confine problems_of reachable over_rows
    problem_of shortened trim_id_lists named_in_tables is_translation_of has_parent latest_of
    read_published_sets live_published latest_published set_of retire_curriculum
    withdraw_publications
is_served_after = refl

retire_curriculum-served_example :
    all (λ s. not (exact.matches s.curriculumid "c1")) (served_or served_after) ≡ true
retire_curriculum-served_example =
    retire_curriculum-served exact language.lower content school_caller "c1" "o1" second_shelf
      (retired_or retired).1 (retired_or retired).0 (served_or served_after)
      (retired_of retired retires_first) (served_of served_after is_served_after)

next_spelled : next_reading.payload.curriculumid ≡ "c1"
unfolding may_publish publish_commit history newest_first publish_writes publish_read
    publishing_organisation assert_in_scope in_scope scope_of column payload_of payload_of_picked
    select_curriculum_tables set_table ◌==◌ key_at get_field ids_in is_gone contains key_of
    confine_curriculum_tables naming_deleted is_among confine problems_of reachable over_rows
    problem_of shortened trim_id_lists named_in_tables is_translation_of has_parent latest_of
next_spelled = refl

publish_commit-state_example :
    (publication_states exact ("c1" ∷ []) third_shelf
      ≡ ("c1", state (answer_or third).0 (some (answer_or third).1) published) ∷ [])
    × (payload_or_none (latest_of exact ("c1" ∷ []) third_shelf "c1") ≡ some next_reading.payload)
publish_commit-state_example =
    publish_commit-state exact "c1" "u2" 5 "p2" next_reading second_shelf third_shelf
      (answer_or third).0 (answer_or third).1 second-IsSound next_spelled
      (answer_of third next_commits)

abbrev payload_or : Built Payload → Payload
payload_or (built p) = p
payload_or (refusal why) = record { curriculumid = ""; organisationid = ""; tables = tables }

abbrev is_built : Built Payload → Bool
is_built (built p) = true
is_built (refusal why) = false

built_of : (b : Built Payload) → is_built b ≡ true → b ≡ built (payload_or b)
built_of (built p) h = refl
built_of (refusal why) h = absurd (ground arith)

abbrev one_payload : Built Payload
one_payload = payload_of language.lower language.parse "o1" tables "c1" []

builds : is_built one_payload ≡ true
unfolding may_publish publish_commit history newest_first publish_writes publish_read
    publishing_organisation assert_in_scope in_scope scope_of column payload_of payload_of_picked
    select_curriculum_tables set_table ◌==◌ key_at get_field ids_in is_gone contains key_of
    confine_curriculum_tables naming_deleted is_among confine problems_of reachable over_rows
    problem_of shortened trim_id_lists named_in_tables is_translation_of has_parent latest_of
builds = refl

abbrev to_curriculum : Reference
to_curriculum = record { fk = "curriculumid"; to = curriculums; optional = false }

payload_of-closed_example :
    all
      (is_among language.lower
        (keys_at language.lower "curriculumid" ((payload_or one_payload).tables curriculums)))
      (map (key_at language.lower "curriculumid") ((payload_or one_payload).tables grades))
    ≡ true
payload_of-closed_example =
    payload_of-closed language.lower language.parse "o1" tables "c1" [] (payload_or one_payload)
      grades to_curriculum (built_of one_payload builds) refl refl
