-- ===== src/Publication/Reads.antt =====
-- src/business/curriculum-publication.ts: what the reads of a publish note.
use edtech_lms_api.Prelude.{
  ℕ, String, ◌≡◌, sym, ap, ◌∙◌, subst, inl, inr, Bool, true, false, Option, none, some, List, [],
  ◌∷◌, arith, leb, if◌then◌else◌, Bool-cases, Option-cases, filter, find, any, head?, IsIn,
  IsIn-filter, find-IsIn, find_sound, ◌==◌,
}
use edtech_lms_api.Js.{Value, str}
use edtech_lms_api.Errors.{err, ok, >>=-eq-ok, ok-injective, >>-eq-ok}
use edtech_lms_api.Claims.{OrgContext}
use edtech_lms_api.Store.{Collation}
use edtech_lms_api.Session.{same_text}
use edtech_lms_api.Content.{curriculum, Content}
use edtech_lms_api.Content.Kinds.{missing_of, assert_in_scope}
use edtech_lms_api.Export.Keys.{Row}
use edtech_lms_api.Publication.Payload.{
  Tables, no_curriculum, names_deleted_subject, names_others, hangs_outside, Built, refusal, built,
  payload_of,
}
use edtech_lms_api.Publication.Hashes.{RowHashes}
use edtech_lms_api.Publication.Shelf.{
  Publication, Shelf, insert_newest, newest_first, history, latest_of,
}
use edtech_lms_api.Publication.Reading.{
  publish, publishing_organisation, built_or_throw, published_meanwhile, Reading, id_of,
}
use edtech_lms_api.Publication.Publish.{publish_read, is_live_row, find_curriculum, publish_commit}
use edtech_lms_api.Publication.Turns.{publish_commit-refused}

insert_newest-IsIn :
    (p q : Publication) (ps : List Publication) → IsIn q (insert_newest p ps) → IsIn q (p ∷ ps)
insert_newest-IsIn p q [] m = m
insert_newest-IsIn p q (x ∷ xs) m = elim (Bool-cases (leb x.publishedat p.publishedat)) [
  | inl e ↦ subst (λ b. IsIn q (if b then p ∷ x ∷ xs else x ∷ insert_newest p xs)) e m
  | inr e ↦ elim (subst (λ b. IsIn q (if b then p ∷ x ∷ xs else x ∷ insert_newest p xs)) e m) [
    | inl same ↦ inr (inl same)
    | inr later ↦ elim (insert_newest-IsIn p q xs later) [
      | inl same ↦ inl same
      | inr there ↦ inr (inr there)
    ]
  ]
]

pub newest_first-IsIn :
    (q : Publication) (ps : List Publication) → IsIn q (newest_first ps) → IsIn q ps
unfolding newest_first
newest_first-IsIn q [] m = m
newest_first-IsIn q (p ∷ ps) m = elim (insert_newest-IsIn p q (newest_first ps) m) [
  | inl same ↦ inl same
  | inr later ↦ inr (newest_first-IsIn q ps later)
]

find-not_all :
    {A : Type 0} (p q : A → Bool) (xs : List A)
    → ((a : A) → IsIn a xs → q a ≡ false)
    → find q xs ≡ none
find-not_all p q xs h = elim (Option-cases (find q xs)) [
  | inl e ↦ e
  | inr (a, e) ↦ absurd (ground (arith, h a (find-IsIn q xs e), find_sound q xs e))
]

built_or_throw-ok : {A : Type 0} (b : Built A) (a : A) → built_or_throw b ≡ ok a → b ≡ built a
built_or_throw-ok (refusal no_curriculum) a h = absurd (ground arith)
built_or_throw-ok (refusal (names_deleted_subject n)) a h = absurd (ground arith)
built_or_throw-ok (refusal (names_others ps)) a h = absurd (ground arith)
built_or_throw-ok (refusal (hangs_outside ks)) a h = absurd (ground arith)
built_or_throw-ok (built b) a h = ap built (ok-injective h)

module _ (c : Collation) where
  open c use {matches}

  -- The map that the latest publications are put in holds none under an id that is spelled
  -- differently.
  latest_of-respelled :
      (id : String) (shelf : Shelf)
      → ((p : Publication) → IsIn p shelf.publications → (p.curriculumid == id) ≡ false)
      → latest_of c (id ∷ []) shelf id ≡ none
  unfolding latest_of
  latest_of-respelled id shelf respelled =
      find-not_all (λ p. true) (λ p. p.curriculumid == id)
        (newest_first
          (filter (λ p. any (λ i. matches p.curriculumid i) (id ∷ [])) shelf.publications))
        (λ p m.
          respelled p
            (IsIn-filter (λ p. any (λ i. matches p.curriculumid i) (id ∷ [])) p shelf.publications
              (newest_first-IsIn p _ m)).0)

  module _ (lower : String → String) (parse : String → Option Value) (text : Row → String)
      (sha256 : String → String) (payload_hash : RowHashes → String) (t : Content)
      (org : Option OrgContext) (id : String) (content : Tables) (subject_rows : List Row)
      (shelf : Shelf) (reading : Reading) where
    abbrev pub IsRead : Type 0
    IsRead =
        publish_read c lower parse text sha256 payload_hash t org id content subject_rows shelf
        ≡ ok reading

    -- A publish that has read has noted the latest publication, and built its payload for the
    -- organisation that the caller acts in, which owns the curriculum.
    pub publish_read-parts :
        IsRead
        → (reading.noted ≡ id_of (latest_of c (id ∷ []) shelf id))
          × (payload_of lower parse reading.organisationid content id subject_rows
              ≡ built reading.payload)
          × (publishing_organisation org publish ≡ ok reading.organisationid)
          × (assert_in_scope c t org curriculum (str id) (missing_of curriculum) ≡ ok tt)
    unfolding publish_read
    publish_read-parts h =
        let (o, acting, rest) = >>=-eq-ok (publishing_organisation org publish) _ h in
        let (inside, more) =
          >>-eq-ok (assert_in_scope c t org curriculum (str id) (missing_of curriculum)) _ rest in
        let (payload, made, last) =
          >>=-eq-ok (built_or_throw (payload_of lower parse o content id subject_rows)) _ more in
        let same = ok-injective last in
        (
          ap (λ r. r.noted) (sym same),
          ap (λ x. payload_of lower parse x content id subject_rows)
                (ap (λ r. r.organisationid) (sym same))
              ∙ built_or_throw-ok (payload_of lower parse o content id subject_rows) payload made
              ∙ ap (λ r. built r.payload) same,
          acting ∙ ap (λ r. ok r.organisationid) same,
          inside,
        )

    -- A publish, by an id that is spelled differently in every publication stored (its letters in
    -- another case, say), of a curriculum that the database finds by that id not deleted and with a
    -- publication, is refused with the 409 although it commits on the very shelf that it has read.
    pub publish_commit-respelled :
        (user : String) (now : ℕ) (uuid : String) (latest : Publication)
        → IsRead
        → is_live_row c (find_curriculum c id shelf) ≡ true
        → head? (history c id shelf) ≡ some latest
        → ((p : Publication) → IsIn p shelf.publications → (p.curriculumid == id) ≡ false)
        → publish_commit c id user now uuid reading shelf ≡ err published_meanwhile
    publish_commit-respelled user now uuid latest h there shown respelled =
        let noted = (publish_read-parts h).0 ∙ ap id_of (latest_of-respelled id shelf respelled) in
        publish_commit-refused c id user now uuid reading shelf there (
          ap (λ o. same_text (id_of o) reading.noted) shown
          ∙ ap (same_text (some latest.publicationid)) noted)
