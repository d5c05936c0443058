-- ===== src/Publication/Sets.antt =====
-- src/business/published-content.ts: `readPublishedSets`, the publications that learners are served.
use edtech_lms_api.Prelude.{
  String, not, ◌&&◌, Option, none, some, List, [], ◌∷◌, map, if◌then◌else◌, filter, find, any, ◌==◌,
  contains,
}
use edtech_lms_api.Errors.{◌>>◌, internal, Failure, Result, err, ok, throw_if, saying}
use edtech_lms_api.Js.{str}
use edtech_lms_api.Session.{same_text}
use edtech_lms_api.Store.{Collation}
use edtech_lms_api.Scope.{column_is}
use edtech_lms_api.Export.Keys.{key_of}
use edtech_lms_api.Publication.Payload.{Payload}
use edtech_lms_api.Publication.Shelf.{is_published, Publication, CurriculumRow, Shelf, newest_first}
use edtech_lms_api.Publication.Merge.{PublishedSet}

-- The 500 of a stored copy that cannot be sent.
abbrev pub unreadable : String → Failure
unreadable what = saying internal what

abbrev pub no_copy : Failure
no_copy =
    unreadable "Content can't be sent: a published curriculum has no stored copy. Nothing was sent."

abbrev pub other_copy : Failure
other_copy =
    unreadable
      "Content can't be sent: a published curriculum's stored copy is for another curriculum or organisation. Nothing was sent."

-- The first of each curriculum, as the map tells them apart.
abbrev pub first_of_each : List String → List Publication → List Publication
first_of_each seen [] = []
first_of_each seen (p ∷ ps) =
    if contains seen p.curriculumid
    then first_of_each seen ps
    else p ∷ first_of_each (p.curriculumid ∷ seen) ps

abbrev pub payload_or_none : Option Publication → Option Payload
payload_or_none none = none
payload_or_none (some p) = p.payload

abbrev pub and_rest : {A : Type 0} → Result A → Result (List A) → Result (List A)
and_rest (err e) rest = err e
and_rest (ok a) (err e) = err e
and_rest (ok a) (ok rest) = ok (a ∷ rest)

module _ (c : Collation) (lower : String → String) where
  open c use {matches}

  -- The keys of the curricula of the organisation that are there and not deleted, out of the ids
  -- given.
  abbrev pub still_there : String → List String → List CurriculumRow → List (Option String)
  still_there organisationid ids rows =
      map (λ row. key_of lower (str row.curriculumid))
        (filter
          (λ row.
            column_is c organisationid row.organisationid
            && (not row.isdeleted && any (λ id. matches row.curriculumid id) ids))
          rows)

  -- The latest publications of the organisation's curricula, those that are `published`.
  unfoldable pub latest_published : String → Shelf → List Publication
  latest_published organisationid shelf =
      filter (λ p. is_published p.status)
        (first_of_each []
          (newest_first (filter (λ p. matches p.organisationid organisationid) shelf.publications)))

  -- Those of them whose curriculum is there and not deleted.
  unfoldable pub live_published : String → Shelf → List Publication
  live_published organisationid shelf =
      let shown = latest_published organisationid shelf in
      let there = still_there organisationid (map (λ p. p.curriculumid) shown) shelf.curricula in
      filter (λ p. any (λ k. same_text k (key_of lower (str p.curriculumid))) there) shown

  -- The stored copy of a publication, checked.
  abbrev pub set_with : String → Publication → Option Payload → Result PublishedSet
  set_with organisationid p none = err no_copy
  set_with organisationid p (some payload) = do
    throw_if
        (not (
          same_text (key_of lower (str payload.organisationid)) (key_of lower (str organisationid))
          && same_text (key_of lower (str payload.curriculumid))
              (key_of lower (str p.curriculumid))))
        other_copy
    ok record {
      publicationid = p.publicationid;
      curriculumid = p.curriculumid;
      publishedat = p.publishedat;
      tables = payload.tables;
    }

  -- The copy is read again by the publication's id.
  unfoldable pub set_of : String → Shelf → Publication → Result PublishedSet
  set_of organisationid shelf p =
      set_with organisationid p
        (payload_or_none (find (λ q. q.publicationid == p.publicationid) shelf.publications))

  abbrev pub sets_of : String → Shelf → List Publication → Result (List PublishedSet)
  sets_of organisationid shelf [] = ok []
  sets_of organisationid shelf (p ∷ ps) =
      and_rest (set_of organisationid shelf p) (sets_of organisationid shelf ps)

  -- `readPublishedSets`
  unfoldable pub read_published_sets : String → Shelf → Result (List PublishedSet)
  read_published_sets organisationid shelf =
      sets_of organisationid shelf (live_published organisationid shelf)
