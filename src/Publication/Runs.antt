-- ===== src/Publication/Runs.antt =====
-- src/business/curriculum-publication.ts, src/business/curriculum.business.ts: publishes, retires
-- and deletes, one after another, on the stored publications.
use edtech_lms_api.Prelude.{
  String, ◌≡◌, refl, sym, ap, ◌∙◌, inl, inr, Bool, true, false, Option, none, some, List, [], ◌∷◌,
  arith, Bool-cases, filter, head?, ◌==◌,
}
use edtech_lms_api.Js.{Value, undefined, null, bool, num, str, arr, obj, get_field}
use edtech_lms_api.Session.{same_text}
use edtech_lms_api.Export.Keys.{Row, curriculums, key_of, key_at}
use edtech_lms_api.Export.Confine.{set_table}
use edtech_lms_api.Publication.Payload.{
  Tables, Payload, id_text, is_gone, Built, refusal, built, select_curriculum_tables, rows_in,
  with_curriculum, payload_with, payload_of_picked, payload_of,
}
use edtech_lms_api.Publication.Turns.{same_text-eq}

-- The payload that is built is of the curriculum whose id was given, whichever case its letters
-- have.
pub with_curriculum-built :
    {A : Type 0} (row : Option Row) (rest : Row → Built A) (a : A)
    → with_curriculum row rest ≡ built a
    → (r : Row) × (row ≡ some r) × (rest r ≡ built a)
with_curriculum-built none rest a h = absurd (ground arith)
with_curriculum-built (some row) rest a h = elim (Bool-cases (is_gone row)) [
  | inl e ↦ absurd (ground arith)
  | inr e ↦ (row, refl, ground arith)
]

pub built-injective : {A : Type 0} {a b : A} → built a ≡ built b → a ≡ b
built-injective h = cc

payload_with-id :
    (organisationid curriculumid : String) (tables : Built Tables) (payload : Payload)
    → payload_with organisationid curriculumid tables ≡ built payload
    → payload.curriculumid ≡ curriculumid
payload_with-id organisationid curriculumid (refusal why) payload h = absurd (ground arith)
payload_with-id organisationid curriculumid (built tables) payload h =
    ap (λ p. p.curriculumid) (sym (built-injective h))

head?-filter :
    {A : Type 0} (p : A → Bool) (xs : List A) (a : A) → head? (filter p xs) ≡ some a → p a ≡ true
head?-filter p [] a h = absurd (ground arith)
head?-filter p (x ∷ xs) a h = elim (Bool-cases (p x)) [
  | inl e ↦ ground arith
  | inr e ↦ head?-filter p xs a (ground arith)
]

module _ (lower : String → String) where
  key_of-text : (v : Value) (k : String) → key_of lower v ≡ some k → lower (id_text v) ≡ k
  unfolding key_of
  key_of-text (str s) k h = elim (Bool-cases (s == "")) [
    | inl e ↦ absurd (ground arith)
    | inr e ↦ ground arith
  ]
  key_of-text undefined k h = absurd (ground arith)
  key_of-text null k h = absurd (ground arith)
  key_of-text (bool b) k h = absurd (ground arith)
  key_of-text (num n) k h = absurd (ground arith)
  key_of-text (arr vs) k h = absurd (ground arith)
  key_of-text (obj fs) k h = absurd (ground arith)

  key_of-id : (id : String) → (id == "") ≡ false → key_of lower (str id) ≡ some (lower id)
  unfolding key_of
  key_of-id id h = rw (h) refl

  picked-curriculums :
      (content : Tables) (id : String)
      → rows_in (select_curriculum_tables lower content id) curriculums
        ≡ filter
            (λ row. same_text (key_at lower "curriculumid" row) (key_of lower (str id)))
            (content curriculums)
  unfolding select_curriculum_tables set_table
  picked-curriculums content id = refl

  pub payload_of-id :
      (parse : String → Option Value) (organisationid : String) (content : Tables) (id : String)
      (subject_rows : List Row) (payload : Payload)
      → (id == "") ≡ false
      → payload_of lower parse organisationid content id subject_rows ≡ built payload
      → lower payload.curriculumid ≡ lower id
  unfolding payload_of payload_of_picked key_at
  payload_of-id parse organisationid content id subject_rows payload given h =
      let (row, first, made) = with_curriculum-built _ _ payload h in
      let same =
        head?-filter (λ row. same_text (key_at lower "curriculumid" row) (key_of lower (str id)))
          (content curriculums) row (ap head? (sym (picked-curriculums content id)) ∙ first) in
      ap lower
        (payload_with-id organisationid (id_text (get_field "curriculumid" row)) _ payload made)
      ∙ key_of-text (get_field "curriculumid" row) (lower id) (
          same_text-eq (key_at lower "curriculumid" row) (key_of lower (str id)) same
          ∙ key_of-id id given)
