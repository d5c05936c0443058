-- ===== src/Content.antt =====
-- The content tables and who owns a row (src/business/content-owner.ts): six tables carry the owner,
-- and every other row takes it from a parent.
pub mod Kinds
pub mod Rules
pub mod Range
pub mod Owners
use edtech_lms_api.Prelude.{
  String, Bool, true, false, Option, none, some, List, ◌==◌, find, if◌then◌else◌,
}
use edtech_lms_api.Errors.{Result, ok, ◌>>=◌}
use edtech_lms_api.Claims.{OrgContext}
use edtech_lms_api.Scope.{Scope, platform, organisation, scope_of}
use edtech_lms_api.Store.{Collation}

pub data ContentKind : Type 0 where
  curriculum question document questiontag documenttag subject grade level : ContentKind
  lesson learning learningdocument plan practice quiz : ContentKind
  practicequestion quizquestion levelquizquestion baseline baselinequestion feedback : ContentKind

-- A row: its primary key, the column that names its parent, its owner column and, where it attaches
-- a question, the question's id. A table that lacks a column has none in every row.
pub record Row : Type 0 where
  pub id : String
  pub parentid : Option String
  pub organisationid : Option String
  pub questionid : Option String

pub record Content : Type 0 where
  pub rows : ContentKind → List Row
  pub curriculumcountries : List Row
  pub schools : List Row

-- A text that is not empty.
abbrev pub text_of : Option String → Option String
text_of none = none
text_of (some s) = if s == "" then none else some s

-- `id ? f(id) : null`
abbrev pub via : Option String → (String → Option String) → Option String
via none f = none
via (some id) f = f id

-- The owner on the caller's side.
unfoldable pub caller_owner : Option OrgContext → Result (Option String)
caller_owner org =
    scope_of org >>= λ s. elim s [ platform ↦ ok none | organisation id ↦ ok (some id) ]

pub record AttachOwners : Type 0 where
  pub parent : Option String
  pub question : Option String

module _ (c : Collation) where
  -- `findOne({ where: { [key]: id }, attributes: [attribute] })`, and the attribute if it is a text
  unfoldable pub column : List Row → String → (Row → Option String) → Option String
  column rows id attribute = elim (find (λ r. c.matches r.id id) rows) [
    | none ↦ none
    | some r ↦ text_of (attribute r)
  ]

  -- The owner column of a table.
  abbrev pub owner_in : List Row → String → Option String
  owner_in rows id = column rows id (λ r. r.organisationid)

  abbrev pub parent_in : List Row → String → Option String
  parent_in rows id = column rows id (λ r. r.parentid)

module _ (c : Collation) (t : Content) where
  abbrev pub owner_of_curriculum : String → Option String
  owner_of_curriculum id = owner_in c (t.rows curriculum) id

  abbrev pub owner_of_question : String → Option String
  owner_of_question id = owner_in c (t.rows question) id

  abbrev pub owner_of_document : String → Option String
  owner_of_document id = owner_in c (t.rows document) id

  abbrev pub owner_of_question_tag : String → Option String
  owner_of_question_tag id = owner_in c (t.rows questiontag) id

  abbrev pub owner_of_document_tag : String → Option String
  owner_of_document_tag id = owner_in c (t.rows documenttag) id

  abbrev pub owner_of_subject : String → Option String
  owner_of_subject id = owner_in c (t.rows subject) id

  abbrev pub owner_of_school : String → Option String
  owner_of_school id = owner_in c t.schools id

  abbrev pub owner_of_grade : String → Option String
  owner_of_grade id = via (parent_in c (t.rows grade) id) owner_of_curriculum

  abbrev pub owner_of_level : String → Option String
  owner_of_level id = via (parent_in c (t.rows level) id) owner_of_grade

  abbrev pub owner_of_lesson : String → Option String
  owner_of_lesson id = via (parent_in c (t.rows lesson) id) owner_of_level

  abbrev pub via_lesson : List Row → String → Option String
  via_lesson rows id = via (parent_in c rows id) owner_of_lesson

  abbrev pub owner_of_learning : String → Option String
  owner_of_learning id = via_lesson (t.rows learning) id

  abbrev pub owner_of_learning_document : String → Option String
  owner_of_learning_document id = via (parent_in c (t.rows learningdocument) id) owner_of_learning

  abbrev pub owner_of_plan : String → Option String
  owner_of_plan id = via_lesson (t.rows plan) id

  abbrev pub owner_of_practice : String → Option String
  owner_of_practice id = via_lesson (t.rows practice) id

  abbrev pub owner_of_quiz : String → Option String
  owner_of_quiz id = via_lesson (t.rows quiz) id

  abbrev pub owner_of_feedback : String → Option String
  owner_of_feedback id = via (parent_in c (t.rows feedback) id) owner_of_curriculum

  abbrev pub owner_of_curriculum_country : String → Option String
  owner_of_curriculum_country id = via (parent_in c t.curriculumcountries id) owner_of_curriculum

  abbrev pub owner_of_curriculum_baseline : String → Option String
  owner_of_curriculum_baseline id = via (parent_in c (t.rows baseline) id) owner_of_curriculum

  -- The owners of the two ends of an attach row.
  unfoldable pub both_ends : List Row → String → (String → Option String) → AttachOwners
  both_ends rows id parent_owner = elim (find (λ r. c.matches r.id id) rows) [
    | none ↦ record { parent = none; question = none }
    | some r ↦ record {
      parent = via (text_of r.parentid) parent_owner;
      question = via (text_of r.questionid) owner_of_question;
    }
  ]

  abbrev pub owners_of_practice_question : String → AttachOwners
  owners_of_practice_question id = both_ends (t.rows practicequestion) id owner_of_practice

  abbrev pub owners_of_quiz_question : String → AttachOwners
  owners_of_quiz_question id = both_ends (t.rows quizquestion) id owner_of_quiz

  abbrev pub owners_of_level_quiz_question : String → AttachOwners
  owners_of_level_quiz_question id = both_ends (t.rows levelquizquestion) id owner_of_level

  abbrev pub owners_of_baseline_question : String → AttachOwners
  owners_of_baseline_question id =
      both_ends (t.rows baselinequestion) id owner_of_curriculum_baseline
