-- ===== src/Content/Owners.antt =====
-- One row's owner and the fragment that limits a list agree: a row that its owner puts in scope is
-- listed.
use edtech_lms_api.Prelude.{
  String, Bool, true, false, Option, none, some, List, ◌≡◌, refl, sym, ◌∙◌, ap, arith, ℕ, zero, suc,
  ◌<◌, any, map, filter, find, inl, inr, Option-cases, IsIn, find-IsIn, find_sound, IsIn-filter_of,
  [], ◌∷◌, not,
}
use edtech_lms_api.Js.{Value, undefined, null, bool, num, str, arr, obj}
use edtech_lms_api.Errors.{Result, ok, err, Failure, Result-cases, ◌>>=◌, ◌>>◌, >>-eq-ok, throw_if}
use edtech_lms_api.Claims.{OrgContext}
use edtech_lms_api.Scope.{Scope, platform, organisation, scope_of, owned_where}
use edtech_lms_api.Session.{same_text}
use edtech_lms_api.Staff.Laws.{same_text-eq}
use edtech_lms_api.Store.{Collation}
use edtech_lms_api.Content.{
  ContentKind, Content, Row, curriculum, question, document, questiontag, documenttag, subject,
  grade, level, lesson, learning, learningdocument, plan, practice, quiz, practicequestion,
  quizquestion, levelquizquestion, baseline, baselinequestion, feedback, column, owner_in,
  parent_in, text_of, via, both_ends,
}
use edtech_lms_api.Content.Kinds.{
  parent_of, within, depth, limit_by, owner_of, in_scope, scope_where, find_owned, assert_in_scope,
  is_id,
}
use edtech_lms_api.Content.Range.{rank, rank-parent_of, rank-depth}

module _ (c : Collation) (t : Content) where
  owner_of-root :
      (k : ContentKind) (id : String)
      → parent_of k ≡ none
      → owner_of c t k id ≡ owner_in c (t.rows k) id
  owner_of-root curriculum id h = refl
  owner_of-root question id h = refl
  owner_of-root document id h = refl
  owner_of-root questiontag id h = refl
  owner_of-root documenttag id h = refl
  owner_of-root subject id h = refl
  owner_of-root grade id h = absurd (ground arith)
  owner_of-root level id h = absurd (ground arith)
  owner_of-root lesson id h = absurd (ground arith)
  owner_of-root learning id h = absurd (ground arith)
  owner_of-root learningdocument id h = absurd (ground arith)
  owner_of-root plan id h = absurd (ground arith)
  owner_of-root practice id h = absurd (ground arith)
  owner_of-root quiz id h = absurd (ground arith)
  owner_of-root practicequestion id h = absurd (ground arith)
  owner_of-root quizquestion id h = absurd (ground arith)
  owner_of-root levelquizquestion id h = absurd (ground arith)
  owner_of-root baseline id h = absurd (ground arith)
  owner_of-root baselinequestion id h = absurd (ground arith)
  owner_of-root feedback id h = absurd (ground arith)

  both_ends-parent :
      (rows : List Row) (id : String) (f : String → Option String)
      → (both_ends c t rows id f).parent ≡ via (parent_in c rows id) f
  unfolding both_ends column
  both_ends-parent rows id f = elim (Option-cases (find (λ r. c.matches r.id id) rows)) [
    | inl n ↦ ground arith
    | inr (r, e) ↦ ground arith
  ]

  -- The owner of a row under a parent, once for every kind that has one.
  abbrev via_parent : ContentKind → String → Option ContentKind → Option String
  via_parent k id none = none
  via_parent k id (some q) = via (parent_in c (t.rows k) id) (owner_of c t q)

  owner_of-child :
      (k p : ContentKind) (id : String)
      → parent_of k ≡ some p
      → owner_of c t k id ≡ via (parent_in c (t.rows k) id) (owner_of c t p)
  unfolding both_ends column
  owner_of-child curriculum p id h = absurd (ground arith)
  owner_of-child question p id h = absurd (ground arith)
  owner_of-child document p id h = absurd (ground arith)
  owner_of-child questiontag p id h = absurd (ground arith)
  owner_of-child documenttag p id h = absurd (ground arith)
  owner_of-child subject p id h = absurd (ground arith)
  owner_of-child grade p id h = ap (via_parent grade id) h
  owner_of-child level p id h = ap (via_parent level id) h
  owner_of-child lesson p id h = ap (via_parent lesson id) h
  owner_of-child learning p id h = ap (via_parent learning id) h
  owner_of-child learningdocument p id h = ap (via_parent learningdocument id) h
  owner_of-child plan p id h = ap (via_parent plan id) h
  owner_of-child practice p id h = ap (via_parent practice id) h
  owner_of-child quiz p id h = ap (via_parent quiz id) h
  owner_of-child practicequestion p id h =
      both_ends-parent (t.rows practicequestion) id (owner_of c t practice)
      ∙ ap (via_parent practicequestion id) h
  owner_of-child quizquestion p id h =
      both_ends-parent (t.rows quizquestion) id (owner_of c t quiz)
      ∙ ap (via_parent quizquestion id) h
  owner_of-child levelquizquestion p id h =
      both_ends-parent (t.rows levelquizquestion) id (owner_of c t level)
      ∙ ap (via_parent levelquizquestion id) h
  owner_of-child baseline p id h = ap (via_parent baseline id) h
  owner_of-child baselinequestion p id h =
      both_ends-parent (t.rows baselinequestion) id (owner_of c t baseline)
      ∙ ap (via_parent baselinequestion id) h
  owner_of-child feedback p id h = ap (via_parent feedback id) h

  text_of-some : (v : Option String) (s : String) → text_of v ≡ some s → v ≡ some s
  text_of-some none s h = absurd (ground arith)
  text_of-some (some v) s h = ground arith

  column-some :
      (rows : List Row) (id : String) (attribute : Row → Option String) (s : String)
      → column c rows id attribute ≡ some s
      → (r : Row) × (find (λ r. c.matches r.id id) rows ≡ some r) × (attribute r ≡ some s)
  unfolding column
  column-some rows id attribute s h = elim (Option-cases (find (λ r. c.matches r.id id) rows)) [
    | inl n ↦ absurd (ground arith)
    | inr (r, e) ↦ (r, e, text_of-some (attribute r) s (ground arith))
  ]

  via-some :
      (v : Option String) (f : String → Option String) (s : String)
      → via v f ≡ some s
      → (id : String) × (v ≡ some id) × (f id ≡ some s)
  via-some none f s h = absurd (ground arith)
  via-some (some id) f s h = (id, refl, h)

  any-IsIn :
      (id : String) (r : Row) (rs : List Row)
      → IsIn r rs
      → c.matches id r.id ≡ true
      → any (λ i. c.matches id i) (map (λ r. r.id) rs) ≡ true
  any-IsIn id r [] m h = absurd m
  any-IsIn id r (x ∷ xs) (inl e) h = ground (arith, ap (λ y. c.matches id y.id) e)
  any-IsIn id r (x ∷ xs) (inr m) h = ground (arith, any-IsIn id r xs m h)

  limit_by-root :
      (o : String) (ids : ContentKind → List String) (row : Row)
      → row.organisationid ≡ some o
      → limit_by c t o ids none row ≡ true
  unfolding owned_where
  limit_by-root o ids row h = ground (arith, c.matches_refl o)

  limit_by-child :
      (o : String) (ids : ContentKind → List String) (p : ContentKind) (row : Row) (id : String)
      → row.parentid ≡ some id
      → any (λ i. c.matches id i) (ids p) ≡ true
      → limit_by c t o ids (some p) row ≡ true
  limit_by-child o ids p row id h found = ground arith

  abbrev ids_at : ℕ → String → ContentKind → List String
  ids_at n o p = map (λ r. r.id) (filter (within c t n o p) (t.rows p))

  -- The row that an id finds, if that id's owner is the organisation, is within it.
  owner_of-within :
      (n : ℕ) (k : ContentKind) (id o : String)
      → rank k < n
      → owner_of c t k id ≡ some o
      → (row : Row) × (find (λ r. c.matches r.id id) (t.rows k) ≡ some row)
        × (within c t n o k row ≡ true)
  unfolding within
  owner_of-within zero k id o h e = absurd (omega arith)
  owner_of-within (suc n) k id o h e = elim (Option-cases (parent_of k)) [
    | inl root ↦
        let (row, found, owner) =
          column-some (t.rows k) id (λ r. r.organisationid) o (sym (owner_of-root k id root) ∙ e) in
        (row, found, rw (root) (limit_by-root o (ids_at n o) row owner))
    | inr (p, child) ↦
        let (pid, parent, up) =
          via-some (parent_in c (t.rows k) id) (owner_of c t p) o
            (sym (owner_of-child k p id child) ∙ e) in
        let (row, found, under) = column-some (t.rows k) id (λ r. r.parentid) pid parent in
        let (prow, pfound, inside) =
          owner_of-within n p pid o (omega (arith, rank-parent_of k p child)) up in
        let stored = find-IsIn (λ r. c.matches r.id pid) (t.rows p) pfound in
        (
          row,
          found,
          rw (child) (
              limit_by-child o (ids_at n o) p row pid under (
                any-IsIn pid prow (filter (within c t n o p) (t.rows p))
                  (IsIn-filter_of (within c t n o p) prow (t.rows p) stored inside)
                  (c.matches_sym prow.id pid
                    (find_sound (λ r. c.matches r.id pid) (t.rows p) pfound)))),
        )
  ]

  in_scope-within :
      (org : Option OrgContext) (k : ContentKind) (id : String) (row : Row)
      → in_scope c t org k (str id) ≡ ok true
      → find (λ r. c.matches r.id id) (t.rows k) ≡ some row
      → scope_where c t org k row ≡ ok true
  unfolding in_scope scope_where
  in_scope-within org k id row h found = elim (Result-cases (scope_of org)) [
    | inl (e, refused) ↦ absurd (ground arith)
    | inr (platform, scoped) ↦ rw (scoped) refl
    | inr (organisation o, scoped) ↦
        let owned : same_text (owner_of c t k id) (some o) ≡ true = ground arith in
        let (r, again, inside) =
          owner_of-within depth k id o (rank-depth k)
            (same_text-eq (owner_of c t k id) (some o) owned) in
        let same : r ≡ row = ground arith in
        rw (scoped) (ap ok (ap (within c t depth o k) (sym same) ∙ inside))
  ]

  throw_if-passed :
      {B : Type 0} (r : Result Bool) (e : Failure) (k : Result B) (b : B)
      → ((r >>= λ inside. throw_if (not inside) e) >> k) ≡ ok b
      → (r ≡ ok true) × (k ≡ ok b)
  throw_if-passed (ok true) e k b h = (refl, h)
  throw_if-passed (ok false) e k b h = absurd (ground arith)
  throw_if-passed (err x) e k b h = absurd (ground arith)

  -- A row that `findOwned` returns to a caller by its id alone is one that the fragment for the
  -- same caller's lists lets through.
  pub find_owned-listed :
      (org : Option OrgContext) (k : ContentKind) (id : Value) (missing : Failure) (row : Row)
      → find_owned c t org k id (λ _. true) missing ≡ ok row
      → scope_where c t org k row ≡ ok true
  unfolding find_owned assert_in_scope
  find_owned-listed org k (str id) missing row h =
      let (named, rest) = >>-eq-ok (throw_if (not (is_id (str id))) missing) _ h in
      let (inside, found) = throw_if-passed (in_scope c t org k (str id)) missing _ row rest in
      in_scope-within org k id row inside (ground arith)
  find_owned-listed org k undefined missing row h = absurd (ground arith)
  find_owned-listed org k null missing row h = absurd (ground arith)
  find_owned-listed org k (bool b) missing row h = absurd (ground arith)
  find_owned-listed org k (num n) missing row h = absurd (ground arith)
  find_owned-listed org k (arr vs) missing row h = absurd (ground arith)
  find_owned-listed org k (obj fs) missing row h = absurd (ground arith)

  -- Absent, unowned and of another organisation are refused alike: with a scope, every refusal of
  -- `findOwned` is the one given for a row that is not there.
  pub find_owned-same_refusal :
      (org : Option OrgContext) (s : Scope) (k : ContentKind) (id : Value) (condition : Row → Bool)
      (missing e : Failure)
      → scope_of org ≡ ok s
      → find_owned c t org k id condition missing ≡ err e
      → e ≡ missing
  unfolding find_owned assert_in_scope in_scope
  find_owned-same_refusal org platform k id condition missing e scoped h = ground arith
  find_owned-same_refusal org (organisation o) k id condition missing e scoped h = ground arith
