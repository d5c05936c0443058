-- ===== src/Export/Ties.antt =====
-- src/business/organisation-content-export.ts: no column that ties a row to another is one of the
-- lists that are trimmed.
use edtech_lms_api.Prelude.{
  ◌≡◌, refl, sym, ap, ◌∙◌, inl, inr, Bool, true, false, not, Option, none, some, List, [], ◌∷◌,
  arith, not-true, all, IsIn, ◌==◌,
}
use edtech_lms_api.Export.Keys.{
  TableKey, countries, schools, standards, subjects, curriculums, questions, documents,
  curriculumbaselines, baselinequestion, grades, levels, lessons, lessonlearnings,
  lessonlearningdocuments, lessonplans, lessonpractices, lessonquizzes, lessonpracticequestions,
  lessonquizquestions, levelquizquestions, contenttranslations, content_table_keys, same_key,
  Reference, pk, parent, refs,
}
use edtech_lms_api.Export.Tables.{is_trimmed}

pub pk-kept : (k : TableKey) → is_trimmed k (pk k) ≡ false
unfolding ◌==◌
pk-kept countries = refl
pk-kept schools = refl
pk-kept standards = refl
pk-kept subjects = refl
pk-kept curriculums = refl
pk-kept questions = refl
pk-kept documents = refl
pk-kept curriculumbaselines = refl
pk-kept baselinequestion = refl
pk-kept grades = refl
pk-kept levels = refl
pk-kept lessons = refl
pk-kept lessonlearnings = refl
pk-kept lessonlearningdocuments = refl
pk-kept lessonplans = refl
pk-kept lessonpractices = refl
pk-kept lessonquizzes = refl
pk-kept lessonpracticequestions = refl
pk-kept lessonquizquestions = refl
pk-kept levelquizquestions = refl
pk-kept contenttranslations = refl

abbrev fk_kept : TableKey → Option Reference → Bool
fk_kept k none = true
fk_kept k (some r) = not (is_trimmed k r.fk)

parent_kept : (k : TableKey) → fk_kept k (parent k) ≡ true
unfolding ◌==◌
parent_kept countries = refl
parent_kept schools = refl
parent_kept standards = refl
parent_kept subjects = refl
parent_kept curriculums = refl
parent_kept questions = refl
parent_kept documents = refl
parent_kept curriculumbaselines = refl
parent_kept baselinequestion = refl
parent_kept grades = refl
parent_kept levels = refl
parent_kept lessons = refl
parent_kept lessonlearnings = refl
parent_kept lessonlearningdocuments = refl
parent_kept lessonplans = refl
parent_kept lessonpractices = refl
parent_kept lessonquizzes = refl
parent_kept lessonpracticequestions = refl
parent_kept lessonquizquestions = refl
parent_kept levelquizquestions = refl
parent_kept contenttranslations = refl

pub parent-kept : (k : TableKey) (r : Reference) → parent k ≡ some r → is_trimmed k r.fk ≡ false
parent-kept k r h = not-true (is_trimmed k r.fk) (ap (fk_kept k) (sym h) ∙ parent_kept k)

refs_kept : (k : TableKey) → all (λ r. not (is_trimmed k r.fk)) (refs k) ≡ true
unfolding ◌==◌
refs_kept countries = refl
refs_kept schools = refl
refs_kept standards = refl
refs_kept subjects = refl
refs_kept curriculums = refl
refs_kept questions = refl
refs_kept documents = refl
refs_kept curriculumbaselines = refl
refs_kept baselinequestion = refl
refs_kept grades = refl
refs_kept levels = refl
refs_kept lessons = refl
refs_kept lessonlearnings = refl
refs_kept lessonlearningdocuments = refl
refs_kept lessonplans = refl
refs_kept lessonpractices = refl
refs_kept lessonquizzes = refl
refs_kept lessonpracticequestions = refl
refs_kept lessonquizquestions = refl
refs_kept levelquizquestions = refl
refs_kept contenttranslations = refl

pub all-IsIn :
    {A : Type 0} (p : A → Bool) (a : A) (xs : List A) → IsIn a xs → all p xs ≡ true → p a ≡ true
all-IsIn p a [] m h = absurd m
all-IsIn p a (x ∷ xs) (inl e) h = ap p (sym e) ∙ ground arith
all-IsIn p a (x ∷ xs) (inr m) h = all-IsIn p a xs m (ground arith)

pub refs-kept : (k : TableKey) (r : Reference) → IsIn r (refs k) → is_trimmed k r.fk ≡ false
refs-kept k r m =
    not-true (is_trimmed k r.fk)
      (all-IsIn (λ x. not (is_trimmed k x.fk)) r (refs k) m (refs_kept k))

-- A table whose rows hang from a parent is no table of translations.
abbrev hangs : Option Reference → TableKey → Bool
hangs none k = true
hangs (some r) k = not (same_key k contenttranslations)

hangs_plainly : (k : TableKey) → hangs (parent k) k ≡ true
hangs_plainly countries = refl
hangs_plainly schools = refl
hangs_plainly standards = refl
hangs_plainly subjects = refl
hangs_plainly curriculums = refl
hangs_plainly questions = refl
hangs_plainly documents = refl
hangs_plainly curriculumbaselines = refl
hangs_plainly baselinequestion = refl
hangs_plainly grades = refl
hangs_plainly levels = refl
hangs_plainly lessons = refl
hangs_plainly lessonlearnings = refl
hangs_plainly lessonlearningdocuments = refl
hangs_plainly lessonplans = refl
hangs_plainly lessonpractices = refl
hangs_plainly lessonquizzes = refl
hangs_plainly lessonpracticequestions = refl
hangs_plainly lessonquizquestions = refl
hangs_plainly levelquizquestions = refl
hangs_plainly contenttranslations = refl

pub parent-plain :
    (k : TableKey) (r : Reference) → parent k ≡ some r → same_key k contenttranslations ≡ false
parent-plain k r h =
    not-true (same_key k contenttranslations) (ap (λ p. hangs p k) (sym h) ∙ hangs_plainly k)

pub content_table_keys-all : (k : TableKey) → IsIn k content_table_keys
content_table_keys-all countries = inl refl
content_table_keys-all schools = inr (inl refl)
content_table_keys-all standards = inr (inr (inl refl))
content_table_keys-all subjects = inr (inr (inr (inl refl)))
content_table_keys-all curriculums = inr (inr (inr (inr (inl refl))))
content_table_keys-all questions = inr (inr (inr (inr (inr (inl refl)))))
content_table_keys-all documents = inr (inr (inr (inr (inr (inr (inl refl))))))
content_table_keys-all curriculumbaselines = inr (inr (inr (inr (inr (inr (inr (inl refl)))))))
content_table_keys-all baselinequestion = inr (inr (inr (inr (inr (inr (inr (inr (inl refl))))))))
content_table_keys-all grades = inr (inr (inr (inr (inr (inr (inr (inr (inr (inl refl)))))))))
content_table_keys-all levels = inr (inr (inr (inr (inr (inr (inr (inr (inr (inr (inl refl))))))))))
content_table_keys-all lessons =
    inr (inr (inr (inr (inr (inr (inr (inr (inr (inr (inr (inl refl)))))))))))
content_table_keys-all lessonlearnings =
    inr (inr (inr (inr (inr (inr (inr (inr (inr (inr (inr (inr (inl refl))))))))))))
content_table_keys-all lessonlearningdocuments =
    inr (inr (inr (inr (inr (inr (inr (inr (inr (inr (inr (inr (inr (inl refl)))))))))))))
content_table_keys-all lessonplans =
    inr (inr (inr (inr (inr (inr (inr (inr (inr (inr (inr (inr (inr (inr (inl refl))))))))))))))
content_table_keys-all lessonpractices =
    inr
      (inr (inr (inr (inr (inr (inr (inr (inr (inr (inr (inr (inr (inr (inr (inl refl)))))))))))))))
content_table_keys-all lessonquizzes = inr (
    inr (
      inr (inr (inr (inr (inr (inr (inr (inr (inr (inr (inr (inr (inr (inr (inl refl))))))))))))))))
content_table_keys-all lessonpracticequestions = inr (
    inr (
      inr (
        inr (
          inr (inr (inr (inr (inr (inr (inr (inr (inr (inr (inr (inr (inr (inl refl)))))))))))))))))
content_table_keys-all lessonquizquestions = inr (
    inr (
      inr (
        inr (
          inr (
            inr (
              inr (inr (inr (inr (inr (inr (inr (inr (inr (inr (inr (inr (inl refl))))))))))))))))))
content_table_keys-all levelquizquestions = inr (
    inr (
      inr (
        inr (
          inr (
            inr (
              inr (
                inr (
                  inr (inr (inr (inr (inr (inr (inr (inr (inr (inr (inr (inl refl)))))))))))))))))))
content_table_keys-all contenttranslations = inr (
    inr (
      inr (
        inr (
          inr (
            inr (
              inr (
                inr (
                  inr (
                    inr (
                      inr (inr (inr (inr (inr (inr (inr (inr (inr (inr (inl refl))))))))))))))))))))
