-- ===== src/Export/Keys.antt =====
-- src/business/organisation-content-export.ts: the tables of the payload, parents first, and the
-- shape of their rows.
use edtech_lms_api.Prelude.{
  ℕ, String, Bool, true, false, Option, none, some, List, [], ◌∷◌, ◌==◌, if◌then◌else◌, nat_eq,
}
use edtech_lms_api.Js.{Value, str, Fields, get_field}

-- One row, with its columns.
abbrev pub Row : Type 0
Row = Fields

pub data TableKey : Type 0 where
  countries schools standards subjects curriculums questions documents : TableKey
  curriculumbaselines baselinequestion grades levels lessons lessonlearnings : TableKey
  lessonlearningdocuments lessonplans lessonpractices lessonquizzes : TableKey
  lessonpracticequestions lessonquizquestions levelquizquestions contenttranslations : TableKey

-- `CONTENT_TABLE_KEYS`
abbrev pub content_table_keys : List TableKey
content_table_keys =
    countries ∷ schools ∷ standards ∷ subjects ∷ curriculums ∷ questions ∷ documents
    ∷ curriculumbaselines ∷ baselinequestion ∷ grades ∷ levels ∷ lessons ∷ lessonlearnings
    ∷ lessonlearningdocuments ∷ lessonplans ∷ lessonpractices ∷ lessonquizzes
    ∷ lessonpracticequestions ∷ lessonquizquestions ∷ levelquizquestions ∷ contenttranslations ∷ []

-- `CURRICULUM_CONTENT_KEYS`
abbrev pub curriculum_content_keys : List TableKey
curriculum_content_keys =
    curriculums ∷ questions ∷ documents ∷ curriculumbaselines ∷ baselinequestion ∷ grades ∷ levels
    ∷ lessons ∷ lessonlearnings ∷ lessonlearningdocuments ∷ lessonplans ∷ lessonpractices
    ∷ lessonquizzes ∷ lessonpracticequestions ∷ lessonquizquestions ∷ levelquizquestions
    ∷ contenttranslations ∷ []

-- The text of a key, as a translation's `tablename` spells it.
abbrev pub key_name : TableKey → String
key_name countries = "countries"
key_name schools = "schools"
key_name standards = "standards"
key_name subjects = "subjects"
key_name curriculums = "curriculums"
key_name questions = "questions"
key_name documents = "documents"
key_name curriculumbaselines = "curriculumbaselines"
key_name baselinequestion = "baselinequestion"
key_name grades = "grades"
key_name levels = "levels"
key_name lessons = "lessons"
key_name lessonlearnings = "lessonlearnings"
key_name lessonlearningdocuments = "lessonlearningdocuments"
key_name lessonplans = "lessonplans"
key_name lessonpractices = "lessonpractices"
key_name lessonquizzes = "lessonquizzes"
key_name lessonpracticequestions = "lessonpracticequestions"
key_name lessonquizquestions = "lessonquizquestions"
key_name levelquizquestions = "levelquizquestions"
key_name contenttranslations = "contenttranslations"

-- The place of a key in the list, by which keys are compared.
abbrev pub place : TableKey → ℕ
place countries = 0
place schools = 1
place standards = 2
place subjects = 3
place curriculums = 4
place questions = 5
place documents = 6
place curriculumbaselines = 7
place baselinequestion = 8
place grades = 9
place levels = 10
place lessons = 11
place lessonlearnings = 12
place lessonlearningdocuments = 13
place lessonplans = 14
place lessonpractices = 15
place lessonquizzes = 16
place lessonpracticequestions = 17
place lessonquizquestions = 18
place levelquizquestions = 19
place contenttranslations = 20

abbrev pub same_key : TableKey → TableKey → Bool
same_key a b = nat_eq (place a) (place b)

pub record Reference : Type 0 where
  pub fk : String
  pub to : TableKey
  pub optional : Bool

abbrev to_row : String → TableKey → Reference
to_row fk to = record { fk = fk; to = to; optional = false }

abbrev to_row? : String → TableKey → Reference
to_row? fk to = record { fk = fk; to = to; optional = true }

-- `SHAPE[key].pk`
abbrev pub pk : TableKey → String
pk countries = "countryid"
pk schools = "schoolid"
pk standards = "standardid"
pk subjects = "subjectid"
pk curriculums = "curriculumid"
pk questions = "questionid"
pk documents = "documentid"
pk curriculumbaselines = "curriculumbaselineid"
pk baselinequestion = "baselinequestionid"
pk grades = "gradeid"
pk levels = "levelid"
pk lessons = "lessonid"
pk lessonlearnings = "lessonlearningid"
pk lessonlearningdocuments = "lessonlearningdocumentid"
pk lessonplans = "lessonplanid"
pk lessonpractices = "lessonpracticeid"
pk lessonquizzes = "lessonquizid"
pk lessonpracticequestions = "lessonpracticequestionid"
pk lessonquizquestions = "lessonquizquestionid"
pk levelquizquestions = "levelquizquestionid"
pk contenttranslations = "translationid"

-- `SHAPE[key].parent`
abbrev pub parent : TableKey → Option Reference
parent standards = some (to_row "schoolid" schools)
parent curriculumbaselines = some (to_row "curriculumid" curriculums)
parent baselinequestion = some (to_row "curriculumbaselineid" curriculumbaselines)
parent grades = some (to_row "curriculumid" curriculums)
parent levels = some (to_row "gradeid" grades)
parent lessons = some (to_row "levelid" levels)
parent lessonlearnings = some (to_row "lessonid" lessons)
parent lessonlearningdocuments = some (to_row "lessonlearningid" lessonlearnings)
parent lessonplans = some (to_row "lessonid" lessons)
parent lessonpractices = some (to_row "lessonid" lessons)
parent lessonquizzes = some (to_row "lessonid" lessons)
parent lessonpracticequestions = some (to_row "lessonpracticeid" lessonpractices)
parent lessonquizquestions = some (to_row "lessonquizid" lessonquizzes)
parent levelquizquestions = some (to_row "levelid" levels)
parent _ = none

-- `SHAPE[key].refs`
abbrev pub refs : TableKey → List Reference
refs schools = to_row? "countryid" countries ∷ []
refs curriculums = to_row? "subjectid" subjects ∷ []
refs baselinequestion = to_row "questionid" questions ∷ []
refs lessonlearnings = to_row? "documentid" documents ∷ []
refs lessonlearningdocuments = to_row "documentid" documents ∷ []
refs lessonplans = to_row? "documentid" documents ∷ []
refs lessonpracticequestions = to_row "questionid" questions ∷ []
refs lessonquizquestions = to_row "questionid" questions ∷ []
refs levelquizquestions = to_row "questionid" questions ∷ to_row? "lessonid" lessons ∷ []
refs _ = []

-- `TRANSLATION_TABLES`
abbrev pub translation_tables : List TableKey
translation_tables =
    curriculums ∷ grades ∷ levels ∷ lessons ∷ lessonlearnings ∷ lessonpractices ∷ lessonquizzes
    ∷ lessonplans ∷ questions ∷ []

-- `SHAPE[key].polymorphic`: the tables that its rows may hang from
abbrev pub polymorphic : TableKey → Option (List TableKey)
polymorphic contenttranslations = some translation_tables
polymorphic _ = none

-- A list of id columns (`ID_LISTS`), and the table that its entries name.
pub record IdList : Type 0 where
  pub column : String
  pub to : TableKey

abbrev pub id_lists : TableKey → List IdList
id_lists schools = record { column = "curriculums"; to = curriculums } ∷ []
id_lists curriculumbaselines = record { column = "schoolid"; to = schools } ∷ []
id_lists _ = []

-- `keyOf`, where `lower` is the language's lower-casing
unfoldable pub key_of : (String → String) → Value → Option String
key_of lower (str s) = if s == "" then none else some (lower s)
key_of lower _ = none

-- `keyOf(row[column])`
unfoldable pub key_at : (String → String) → String → Row → Option String
key_at lower column row = key_of lower (get_field column row)
