-- ===== src/Tests/Lessons.antt =====
-- A curriculum with one grade.
use edtech_lms_api.Prelude.{true, false, none, some, List, [], ◌∷◌, ◌≡◌, refl, ◌==◌}
use edtech_lms_api.Tests.{exact, school_caller}
use edtech_lms_api.Errors.{ok}
use edtech_lms_api.Js.{str}
use edtech_lms_api.Scope.{organisation, scope_of}
use edtech_lms_api.Content.{ContentKind, Content, Row, curriculum, grade, column}
use edtech_lms_api.Content.Kinds.{in_scope, find_owned, assert_in_scope, scope_where, missing_of}
use edtech_lms_api.Content.Owners.{find_owned-listed, find_owned-same_refusal}
use edtech_lms_api.Content.Rules.{TagRow}

abbrev first_curriculum : Row
first_curriculum = record {
  id = "c1";
  parentid = none;
  organisationid = some "o1";
  questionid = none;
}

abbrev first_grade : Row
first_grade = record { id = "g1"; parentid = some "c1"; organisationid = none; questionid = none }

abbrev rows : ContentKind → List Row
rows curriculum = first_curriculum ∷ []
rows grade = first_grade ∷ []
rows _ = []

abbrev pub content : Content
content = record { rows = rows; curriculumcountries = []; schools = [] }

find_owned-listed_example : scope_where exact content school_caller grade first_grade ≡ ok true
unfolding ◌==◌ find_owned assert_in_scope in_scope scope_of column
find_owned-listed_example =
    find_owned-listed exact content school_caller grade (str "g1") (missing_of grade) first_grade
      refl

find_owned-same_refusal_example : missing_of grade ≡ missing_of grade
unfolding ◌==◌ find_owned assert_in_scope in_scope scope_of column
find_owned-same_refusal_example =
    find_owned-same_refusal exact content school_caller (organisation "o1") grade (str "g7")
      (λ _. true) (missing_of grade) (missing_of grade) refl refl

-- A tag of another organisation.
abbrev tags : List TagRow
tags = record { name = "maths"; isdeleted = false; organisationid = some "o2" } ∷ []
