-- ===== src/Publication/Shown.antt =====
-- src/business/published-content.ts, src/business/curriculum-publication.ts: which publications
-- learners are served, and that a retired curriculum's are not.
use edtech_lms_api.Prelude.{
  String, ◌≡◌, refl, sym, ap, ◌∙◌, subst, inl, inr, Bool, true, false, not, Option, none, some,
  List, [], ◌∷◌, arith, if◌then◌else◌, Bool-cases, &&_true, not-true, all, IsIn, IsIn-filter,
  contains, IsIn-map, any-IsIn,
}
use edtech_lms_api.Errors.{Result, err, ok, >>=-eq-ok, ok-injective, >>-eq-ok}
use edtech_lms_api.Js.{str}
use edtech_lms_api.Claims.{OrgContext}
use edtech_lms_api.Session.{same_text}
use edtech_lms_api.Store.{Collation}
use edtech_lms_api.Scope.{column_is}
use edtech_lms_api.Content.{Content}
use edtech_lms_api.Export.Keys.{key_of}
use edtech_lms_api.Publication.Payload.{Payload}
use edtech_lms_api.Publication.Shelf.{
  is_published, Publication, CurriculumRow, Shelf, PublicationState, withdraw_row,
  withdraw_publications,
}
use edtech_lms_api.Publication.Reading.{retire, publishing_organisation}
use edtech_lms_api.Publication.Publish.{retire_curriculum}
use edtech_lms_api.Publication.Reads.{newest_first-IsIn}
use edtech_lms_api.Publication.Merge.{PublishedSet}
use edtech_lms_api.Publication.Deletes.{still_published}
use edtech_lms_api.Publication.Sound.{withdraw_row-keys}
use edtech_lms_api.Publication.Sets.{
  first_of_each, and_rest, latest_published, live_published, set_with, set_of, sets_of,
  read_published_sets,
}

IsIn-first_of_each :
    (seen : List String) (p : Publication) (ps : List Publication)
    → IsIn p (first_of_each seen ps)
    → IsIn p ps
IsIn-first_of_each seen p [] m = m
IsIn-first_of_each seen p (q ∷ qs) m = elim (Bool-cases (contains seen q.curriculumid)) [
  | inl e ↦ inr (
      IsIn-first_of_each seen p qs (
        subst
          (λ b.
            IsIn p
              (if b then first_of_each seen qs else q ∷ first_of_each (q.curriculumid ∷ seen) qs))
          e m))
  | inr e ↦
      elim (subst
        (λ b.
          IsIn p
            (if b then first_of_each seen qs else q ∷ first_of_each (q.curriculumid ∷ seen) qs))
        e m) [
          | inl same ↦ inl same
          | inr later ↦ inr (IsIn-first_of_each (q.curriculumid ∷ seen) p qs later)
        ]
]

and_rest-ok :
    {A : Type 0} (one : Result A) (rest : Result (List A)) (made : List A)
    → and_rest one rest ≡ ok made
    → (a : A) × (others : List A) × (one ≡ ok a) × (rest ≡ ok others) × (made ≡ a ∷ others)
and_rest-ok (err e) rest made h = absurd (ground arith)
and_rest-ok (ok a) (err e) made h = absurd (ground arith)
and_rest-ok (ok a) (ok rest) made h = (a, rest, refl, refl, sym (ok-injective h))

module _ (c : Collation) (lower : String → String) where
  open c use {matches}

  -- The row of a curriculum of the organisation that is not deleted, with the publication's key.
  pub record IsRowOf (organisationid : String) (shelf : Shelf) (p : Publication)
      (row : CurriculumRow) : Type 0 where
    pub stored : IsIn row shelf.curricula
    pub undeleted : row.isdeleted ≡ false
    pub owned : column_is c organisationid row.organisationid ≡ true
    pub same_id :
        same_text (key_of lower (str row.curriculumid)) (key_of lower (str p.curriculumid)) ≡ true

  set_with-made :
      (o : String) (p : Publication) (payload : Option Payload) (s : PublishedSet)
      → set_with c lower o p payload ≡ ok s
      → s.curriculumid ≡ p.curriculumid
  set_with-made o p none s h = absurd (ground arith)
  set_with-made o p (some payload) s h =
      let (checked, made) = >>-eq-ok _ _ h in ap (λ x. x.curriculumid) (sym (ok-injective made))

  set_of-made :
      (o : String) (shelf : Shelf) (p : Publication) (s : PublishedSet)
      → set_of c lower o shelf p ≡ ok s
      → s.curriculumid ≡ p.curriculumid
  unfolding set_of
  set_of-made o shelf p s h = set_with-made o p _ s h

  sets_of-IsIn :
      (o : String) (shelf : Shelf) (ps : List Publication) (made : List PublishedSet)
      (s : PublishedSet)
      → sets_of c lower o shelf ps ≡ ok made
      → IsIn s made
      → (p : Publication) × IsIn p ps × (set_of c lower o shelf p ≡ ok s)
  sets_of-IsIn o shelf [] made s h m = absurd (subst (IsIn s) (sym (ok-injective h)) m)
  sets_of-IsIn o shelf (p ∷ ps) made s h m =
      let (a, others, one, rest, same) =
        and_rest-ok (set_of c lower o shelf p) (sets_of c lower o shelf ps) made h in
      elim (subst (IsIn s) same m) [
        | inl here ↦ (p, inl refl, one ∙ ap ok here)
        | inr later ↦
            let (q, i, made_of) = sets_of-IsIn o shelf ps others s rest later in (q, inr i, made_of)
      ]

  live_published-IsRowOf :
      (o : String) (shelf : Shelf) (p : Publication)
      → IsIn p (live_published c lower o shelf)
      → IsIn p (latest_published c lower o shelf) × ((row : CurriculumRow) × IsRowOf o shelf p row)
  unfolding live_published
  live_published-IsRowOf o shelf p m =
      let (i, there) = IsIn-filter _ p (latest_published c lower o shelf) m in
      let (k, at, same) = any-IsIn _ _ there in
      let (row, stored, key) = IsIn-map (λ row. key_of lower (str row.curriculumid)) k _ at in
      let (listed, passed) = IsIn-filter _ row shelf.curricula stored in
      let (owned, more) = &&_true _ _ passed in
      let (undeleted, named) = &&_true _ _ more in
      (
        i,
        (
          row,
          record {
            stored = listed;
            undeleted = not-true _ undeleted;
            owned = owned;
            same_id = ap (λ x. same_text x (key_of lower (str p.curriculumid))) key ∙ same;
          },
        ),
      )

  latest_published-IsIn :
      (o : String) (shelf : Shelf) (p : Publication)
      → IsIn p (latest_published c lower o shelf)
      → IsIn p shelf.publications
        × (is_published p.status ≡ true)
        × (matches p.organisationid o ≡ true)
  unfolding latest_published
  latest_published-IsIn o shelf p m =
      let (i, shown) = IsIn-filter (λ p. is_published p.status) p _ m in
      let (stored, owned) =
        IsIn-filter (λ p. matches p.organisationid o) p shelf.publications
          (newest_first-IsIn p _ (IsIn-first_of_each [] p _ i)) in
      (stored, shown, owned)

  -- A set that is served was read for a stored publication of the organisation, the latest one of
  -- its curriculum and published, and its curriculum is there.
  pub read_published_sets-IsIn :
      (o : String) (shelf : Shelf) (made : List PublishedSet) (s : PublishedSet)
      → read_published_sets c lower o shelf ≡ ok made
      → IsIn s made
      → (p : Publication) × IsIn p shelf.publications
        × (is_published p.status ≡ true)
        × (matches p.organisationid o ≡ true)
        × IsIn p (latest_published c lower o shelf)
        × (set_of c lower o shelf p ≡ ok s)
        × ((row : CurriculumRow) × IsRowOf o shelf p row)
  unfolding read_published_sets
  read_published_sets-IsIn o shelf made s h m =
      let (p, i, one) = sets_of-IsIn o shelf (live_published c lower o shelf) made s h m in
      let (latest, live) = live_published-IsRowOf o shelf p i in
      let (stored, shown, owned) = latest_published-IsIn o shelf p latest in
      (p, stored, shown, owned, latest, one, live)

  retired_unserved :
      (t : Content) (org : Option OrgContext) (id o : String) (shelf after : Shelf)
      (answer : Bool × PublicationState) (made : List PublishedSet) (s : PublishedSet)
      → retire_curriculum c t org id shelf ≡ ok (answer, after)
      → read_published_sets c lower o after ≡ ok made
      → IsIn s made
      → matches s.curriculumid id ≡ false
  unfolding retire_curriculum withdraw_publications
  retired_unserved t org id o shelf after answer made s h reads m =
      let (acting, who, rest) = >>=-eq-ok (publishing_organisation org retire) _ h in
      let (inside, done) = >>-eq-ok _ _ rest in
      let left : (withdraw_publications c id shelf).1 ≡ after =
        ap (λ (x : (Bool × PublicationState) × Shelf). x.1) (ok-injective done) in
      let (p, stored, shown, owned, latest, one, live) =
        read_published_sets-IsIn o after made s reads m in
      let (q, i, was) =
        IsIn-map (withdraw_row c id) p shelf.publications
          (subst (λ x. IsIn p x.publications) (sym left) stored) in
      ap (λ x. matches x id) (set_of-made o after p s one)
      ∙ ap (λ x. matches x.curriculumid id) (sym was)
      ∙ ap (λ x. matches x id) (withdraw_row-keys c id q).1
      ∙ (still_published c id q (ap (λ x. is_published x.status) was ∙ shown)).1

  all-of_IsIn :
      (p : PublishedSet → Bool) (made : List PublishedSet)
      → ((s : PublishedSet) → IsIn s made → p s ≡ true)
      → all p made ≡ true
  all-of_IsIn p [] h = refl
  all-of_IsIn p (s ∷ made) h =
      ground (arith, h s (inl refl), all-of_IsIn p made (λ t m. h t (inr m)))

  -- After a retire, learners of any organisation are served no publication of that curriculum.
  pub retire_curriculum-served :
      (t : Content) (org : Option OrgContext) (id o : String) (shelf after : Shelf)
      (answer : Bool × PublicationState) (made : List PublishedSet)
      → retire_curriculum c t org id shelf ≡ ok (answer, after)
      → read_published_sets c lower o after ≡ ok made
      → all (λ s. not (matches s.curriculumid id)) made ≡ true
  retire_curriculum-served t org id o shelf after answer made h reads =
      all-of_IsIn (λ s. not (matches s.curriculumid id)) made
        (λ s m. ap not (retired_unserved t org id o shelf after answer made s h reads m))
