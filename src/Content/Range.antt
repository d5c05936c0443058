-- ===== src/Content/Range.antt =====
-- The fragment that limits a list reads no more parents than there are: one more changes nothing.
use edtech_lms_api.Prelude.{
  String, false, Option, none, some, List, ◌≡◌, refl, ◌∙◌, ap, arith, ℕ, zero, suc, ◌<◌, any, map,
  filter, inl, inr, Option-cases,
}
use edtech_lms_api.Errors.{ok, Result-cases}
use edtech_lms_api.Claims.{OrgContext}
use edtech_lms_api.Scope.{platform, organisation, scope_of}
use edtech_lms_api.Store.{Collation}
use edtech_lms_api.Content.{
  ContentKind, Content, Row, curriculum, question, document, questiontag, documenttag, subject,
  grade, level, lesson, learning, learningdocument, plan, practice, quiz, practicequestion,
  quizquestion, levelquizquestion, baseline, baselinequestion, feedback,
}
use edtech_lms_api.Content.Kinds.{parent_of, within, depth, limit_by, owned_ids, scope_where}

-- How many parents a row of a kind has above it.
abbrev pub rank : ContentKind → ℕ
rank curriculum = 0
rank question = 0
rank document = 0
rank questiontag = 0
rank documenttag = 0
rank subject = 0
rank grade = 1
rank level = 2
rank lesson = 3
rank learning = 4
rank learningdocument = 5
rank plan = 4
rank practice = 4
rank quiz = 4
rank practicequestion = 5
rank quizquestion = 5
rank levelquizquestion = 3
rank baseline = 1
rank baselinequestion = 2
rank feedback = 1

pub rank-parent_of : (k p : ContentKind) → parent_of k ≡ some p → rank k ≡ suc (rank p)
rank-parent_of curriculum p h = absurd (ground arith)
rank-parent_of question p h = absurd (ground arith)
rank-parent_of document p h = absurd (ground arith)
rank-parent_of questiontag p h = absurd (ground arith)
rank-parent_of documenttag p h = absurd (ground arith)
rank-parent_of subject p h = absurd (ground arith)
rank-parent_of grade p h = ground arith
rank-parent_of level p h = ground arith
rank-parent_of lesson p h = ground arith
rank-parent_of learning p h = ground arith
rank-parent_of learningdocument p h = ground arith
rank-parent_of plan p h = ground arith
rank-parent_of practice p h = ground arith
rank-parent_of quiz p h = ground arith
rank-parent_of practicequestion p h = ground arith
rank-parent_of quizquestion p h = ground arith
rank-parent_of levelquizquestion p h = ground arith
rank-parent_of baseline p h = ground arith
rank-parent_of baselinequestion p h = ground arith
rank-parent_of feedback p h = ground arith

pub rank-depth : (k : ContentKind) → rank k < depth
rank-depth curriculum = ground arith
rank-depth question = ground arith
rank-depth document = ground arith
rank-depth questiontag = ground arith
rank-depth documenttag = ground arith
rank-depth subject = ground arith
rank-depth grade = ground arith
rank-depth level = ground arith
rank-depth lesson = ground arith
rank-depth learning = ground arith
rank-depth learningdocument = ground arith
rank-depth plan = ground arith
rank-depth practice = ground arith
rank-depth quiz = ground arith
rank-depth practicequestion = ground arith
rank-depth quizquestion = ground arith
rank-depth levelquizquestion = ground arith
rank-depth baseline = ground arith
rank-depth baselinequestion = ground arith
rank-depth feedback = ground arith

module _ (c : Collation) (t : Content) (o : String) where
  within-enough :
      (m n : ℕ) (k : ContentKind) (row : Row)
      → rank k < m
      → rank k < n
      → within c t m o k row ≡ within c t n o k row
  unfolding within
  within-enough zero n k row h g = absurd (omega arith)
  within-enough (suc m) zero k row h g = absurd (omega arith)
  within-enough (suc m) (suc n) k row h g = elim (Option-cases (parent_of k)) [
    | inl root ↦ rw (root) refl
    | inr (p, child) ↦
        let one_less : rank k ≡ suc (rank p) = rank-parent_of k p child in
        let same : within c t m o p ≡ within c t n o p =
          λ i r. within-enough m n p r (omega (arith, one_less)) (omega (arith, one_less)) i in
        rw (child) (
          ap (λ test. limit_by c t o (λ q. map (λ r. r.id) (filter test (t.rows p))) (some p) row)
            same)
  ]

-- The fuel of the fragments is enough: that of a kind that hangs under another answers as the
-- program's recursion does, from the ids in scope of the parent kind.
pub scope_where-parents :
    (c : Collation) (t : Content) (org : Option OrgContext) (k p : ContentKind) (row : Row)
    (ids : List String)
    → parent_of k ≡ some p
    → owned_ids c t org p ≡ ok (some ids)
    → scope_where c t org k row
      ≡ ok (elim row.parentid [ none ↦ false | some id ↦ any (λ i. c.matches id i) ids ])
unfolding scope_where owned_ids within
scope_where-parents c t org k p row ids child h = elim (Result-cases (scope_of org)) [
  | inl (e, refused) ↦ absurd (ground arith)
  | inr (platform, scoped) ↦ absurd (ground arith)
  | inr (organisation o, scoped) ↦
      let listed : map (λ r. r.id) (filter (within c t depth o p) (t.rows p)) ≡ ids =
        ground arith in
      let less : rank p < 5 = omega (arith, rank-parent_of k p child, rank-depth k) in
      let same : within c t depth o k row
          ≡ limit_by c t o (λ q. map (λ r. r.id) (filter (within c t 5 o q) (t.rows q))) (some p)
              row =
        rw (child) refl in
      let again : within c t 5 o p ≡ within c t depth o p =
        λ i r. within-enough c t o 5 depth p r less (omega (arith, less)) i in
      rw (scoped) (
        ap ok (
          same
          ∙ ap (λ test. limit_by c t o (λ q. map (λ r. r.id) (filter test (t.rows p))) (some p) row)
              again
          ∙ ap (λ l. limit_by c t o (λ q. l) (some p) row) listed))
]
