-- ===== src/Content/Kinds.antt =====
-- src/business/content-scope.ts: which rows of content a caller may see.
use edtech_lms_api.Prelude.{
  String, Bool, true, false, Option, none, some, List, ◌==◌, ◌&&◌, not, ℕ, zero, suc, find, filter,
  any, map, if◌then◌else◌,
}
use edtech_lms_api.Js.{Value, str}
use edtech_lms_api.Errors.{Result, ok, Failure, saying, not_found, throw_if, or_throw, ◌>>=◌, ◌>>◌}
use edtech_lms_api.Claims.{OrgContext}
use edtech_lms_api.Scope.{platform, organisation, scope_of, owned_where}
use edtech_lms_api.Session.{same_text}
use edtech_lms_api.Store.{Collation}
use edtech_lms_api.Content.{
  ContentKind, Content, Row, curriculum, question, document, questiontag, documenttag, subject,
  grade, level, lesson, learning, learningdocument, plan, practice, quiz, practicequestion,
  quizquestion, levelquizquestion, baseline, baselinequestion, feedback, owner_of_curriculum,
  owner_of_question, owner_of_document, owner_of_question_tag, owner_of_document_tag,
  owner_of_subject, owner_of_grade, owner_of_level, owner_of_lesson, owner_of_learning,
  owner_of_learning_document, owner_of_plan, owner_of_practice, owner_of_quiz, owner_of_feedback,
  owner_of_curriculum_baseline, owners_of_practice_question, owners_of_quiz_question,
  owners_of_level_quiz_question, owners_of_baseline_question,
}

-- The kind that a row of this kind hangs under.
abbrev pub parent_of : ContentKind → Option ContentKind
parent_of curriculum = none
parent_of question = none
parent_of document = none
parent_of questiontag = none
parent_of documenttag = none
parent_of subject = none
parent_of grade = some curriculum
parent_of level = some grade
parent_of lesson = some level
parent_of learning = some lesson
parent_of learningdocument = some learning
parent_of plan = some lesson
parent_of practice = some lesson
parent_of quiz = some lesson
parent_of practicequestion = some practice
parent_of quizquestion = some quiz
parent_of levelquizquestion = some level
parent_of baseline = some curriculum
parent_of baselinequestion = some baseline
parent_of feedback = some curriculum

-- The message for a row that is not there.
abbrev pub missing_of : ContentKind → Failure
missing_of curriculum = saying not_found "That curriculum doesn't exist."
missing_of question = saying not_found "That question doesn't exist."
missing_of document = saying not_found "That document doesn't exist."
missing_of questiontag = saying not_found "That question tag doesn't exist."
missing_of documenttag = saying not_found "That document tag doesn't exist."
missing_of subject = saying not_found "That subject doesn't exist."
missing_of grade = saying not_found "That grade doesn't exist."
missing_of level = saying not_found "That level doesn't exist."
missing_of lesson = saying not_found "That lesson doesn't exist."
missing_of learning = saying not_found "That lesson learning item doesn't exist."
missing_of learningdocument = saying not_found "That learning item document doesn't exist."
missing_of plan = saying not_found "That lesson plan doesn't exist."
missing_of practice = saying not_found "That lesson practice doesn't exist."
missing_of quiz = saying not_found "That lesson quiz doesn't exist."
missing_of practicequestion = saying not_found "That lesson practice question doesn't exist."
missing_of quizquestion = saying not_found "That lesson quiz question doesn't exist."
missing_of levelquizquestion = saying not_found "That level quiz question doesn't exist."
missing_of baseline = saying not_found "That baseline curriculum doesn't exist."
missing_of baselinequestion = saying not_found "That baseline question doesn't exist."
missing_of feedback = saying not_found "That feedback doesn't exist."

abbrev pub is_id : Value → Bool
is_id (str id) = not (id == "")
is_id _ = false

module _ (c : Collation) (t : Content) where
  abbrev pub owner_of : ContentKind → String → Option String
  owner_of curriculum id = owner_of_curriculum c t id
  owner_of question id = owner_of_question c t id
  owner_of document id = owner_of_document c t id
  owner_of questiontag id = owner_of_question_tag c t id
  owner_of documenttag id = owner_of_document_tag c t id
  owner_of subject id = owner_of_subject c t id
  owner_of grade id = owner_of_grade c t id
  owner_of level id = owner_of_level c t id
  owner_of lesson id = owner_of_lesson c t id
  owner_of learning id = owner_of_learning c t id
  owner_of learningdocument id = owner_of_learning_document c t id
  owner_of plan id = owner_of_plan c t id
  owner_of practice id = owner_of_practice c t id
  owner_of quiz id = owner_of_quiz c t id
  owner_of practicequestion id = (owners_of_practice_question c t id).parent
  owner_of quizquestion id = (owners_of_quiz_question c t id).parent
  owner_of levelquizquestion id = (owners_of_level_quiz_question c t id).parent
  owner_of baseline id = owner_of_curriculum_baseline c t id
  owner_of baselinequestion id = (owners_of_baseline_question c t id).parent
  owner_of feedback id = owner_of_feedback c t id

  -- Is the row of this id the organisation's?
  abbrev pub is_owned : String → ContentKind → Value → Bool
  is_owned o kind (str id) = not (id == "") && same_text (owner_of kind id) (some o)
  is_owned o kind _ = false

  unfoldable pub in_scope : Option OrgContext → ContentKind → Value → Result Bool
  in_scope org kind id = do
    scope ← scope_of org
    elim scope [ platform ↦ ok true | organisation o ↦ ok (is_owned o kind id) ]

  unfoldable pub assert_in_scope :
      Option OrgContext → ContentKind → Value → Failure → Result (Unit {0})
  assert_in_scope org kind id missing = do
    inside ← in_scope org kind id
    throw_if (not inside) missing

  -- The row of an id, under a further condition.
  abbrev pub row_of : (Row → Bool) → ContentKind → Value → Option Row
  row_of condition kind (str id) =
      if id == "" then none else find (λ r. condition r && c.matches r.id id) (t.rows kind)
  row_of condition kind _ = none

  unfoldable pub find_owned :
      Option OrgContext → ContentKind → Value → (Row → Bool) → Failure → Result Row
  find_owned org kind id condition missing = do
    throw_if (not (is_id id)) missing
    assert_in_scope org kind id missing
    or_throw (row_of condition kind id) missing

  -- The fragment, as a test of a row, where the parents in range of each kind are read.
  abbrev pub limit_by : String → (ContentKind → List String) → Option ContentKind → Row → Bool
  limit_by o ids none row = owned_where c (organisation o) row.organisationid
  limit_by o ids (some p) row = elim row.parentid [
    | none ↦ false
    | some id ↦ any (λ i. c.matches id i) (ids p)
  ]

  -- The where-fragment of an organisation. `fuel` bounds the depth of parents.
  unfoldable pub within : ℕ → String → ContentKind → Row → Bool
  within zero o kind row = false
  within (suc fuel) o kind row =
      limit_by o (λ p. map (λ r. r.id) (filter (within fuel o p) (t.rows p))) (parent_of kind) row

-- No chain of parents is longer.
abbrev pub depth : ℕ
depth = 6

module _ (c : Collation) (t : Content) where
  -- `scopeWhere`, as a test of a row
  unfoldable pub scope_where : Option OrgContext → ContentKind → Row → Result Bool
  scope_where org kind row = do
    scope ← scope_of org
    elim scope [ platform ↦ ok true | organisation o ↦ ok (within c t depth o kind row) ]

  -- `ownedIds`: nothing for the platform
  unfoldable pub owned_ids : Option OrgContext → ContentKind → Result (Option (List String))
  owned_ids org kind = do
    scope ← scope_of org
    elim scope [
      | platform ↦ ok none
      | organisation o ↦
          ok (some (map (λ r. r.id) (filter (within c t depth o kind) (t.rows kind))))
    ]

  -- `andScope`: with no caller at all, the condition as it is
  unfoldable pub and_scope : Option OrgContext → ContentKind → (Row → Bool) → Row → Result Bool
  and_scope none kind condition row = ok (condition row)
  and_scope (some org) kind condition row = do
    inside ← scope_where (some org) kind row
    ok (condition row && inside)
