-- ===== src/Publication/Publish.antt =====
-- src/business/curriculum-publication.ts: `publishCurriculum` and `retireCurriculum`, and
-- src/business/curriculum.business.ts: `deleteCurriculum`.
use edtech_lms_api.Prelude.{
  ℕ, String, Bool, true, false, not, ◌&&◌, Option, none, some, List, [], ◌∷◌, map, if◌then◌else◌,
  find, any, head?,
}
use edtech_lms_api.Js.{Value, str}
use edtech_lms_api.Errors.{◌>>=◌, ◌>>◌, plain, Result, err, ok, throw_if}
use edtech_lms_api.Claims.{OrgContext}
use edtech_lms_api.Session.{same_text}
use edtech_lms_api.Store.{Collation}
use edtech_lms_api.Content.{curriculum, Content}
use edtech_lms_api.Content.Kinds.{missing_of, assert_in_scope}
use edtech_lms_api.Export.Keys.{Row}
use edtech_lms_api.Publication.Payload.{Tables, payload_of}
use edtech_lms_api.Publication.Hashes.{RowHashes, hash_tables}
use edtech_lms_api.Publication.Reading.{
  publish, retire, publishing_organisation, built_or_throw, published_meanwhile, Reading, id_of,
  next_time, base_of, summarise,
}
use edtech_lms_api.Publication.Shelf.{
  published, slim_summary, Publication, CurriculumRow, Shelf, PublicationState, state_of, history,
  latest_of, withdraw_publications,
}

-- `lower`, `parse`, `text`, `sha256` are the language's; `payload_hash` is `payloadHashOf`.
module _ (c : Collation) where
  open c use {matches}

  -- The reads of a publish. `content` and `subject_rows` are what the export's readers gave.
  unfoldable pub publish_read :
      (String → String)
      → (String → Option Value)
      → (Row → String)
      → (String → String)
      → (RowHashes → String)
      → Content
      → Option OrgContext
      → String
      → Tables
      → List Row
      → Shelf
      → Result Reading
  publish_read lower parse text sha256 payload_hash t org id content subject_rows shelf = do
    organisationid ← publishing_organisation org publish
    assert_in_scope c t org curriculum (str id) (missing_of curriculum)
    payload ← built_or_throw (payload_of lower parse organisationid content id subject_rows)
    ok record {
      organisationid = organisationid;
      noted = id_of (latest_of c (id ∷ []) shelf id);
      payload = payload;
      hashes = hash_tables text sha256 payload.tables;
      payloadhash = payload_hash (hash_tables text sha256 payload.tables);
    }

  abbrev pub is_live_row : Option CurriculumRow → Bool
  is_live_row none = false
  is_live_row (some row) = not row.isdeleted

  -- `curriculums.findOne({ where: { curriculumid } })`
  abbrev pub find_curriculum : String → Shelf → Option CurriculumRow
  find_curriculum id shelf = find (λ row. matches row.curriculumid id) shelf.curricula

  -- The checks that a publish makes under the lock; the last is the primary key's.
  unfoldable pub may_publish : String → Reading → String → Shelf → Result (Unit {0})
  may_publish id reading uuid shelf = do
    throw_if (not (is_live_row (find_curriculum id shelf))) (missing_of curriculum)
    throw_if (not (same_text (id_of (head? (history c id shelf))) reading.noted))
        published_meanwhile
    throw_if (any (λ p. matches p.publicationid uuid) shelf.publications)
        (plain "a publication of that id is there")

  abbrev pub tail_of : List Publication → List Publication
  tail_of [] = []
  tail_of (p ∷ ps) = ps

  -- Is the publication one of the older ones?
  abbrev pub is_older : List Publication → Publication → Bool
  is_older older p = any (λ h. matches p.publicationid h.publicationid) older

  -- Retention: an older publication keeps no payload, and the slim part of its summary.
  abbrev pub prune_row : List Publication → Publication → Publication
  prune_row older p =
      if is_older older p then record p { payload = none; summary = slim_summary p.summary } else p

  abbrev pub published_row : String → ℕ → String → Reading → List Publication → Publication
  published_row user now uuid reading past = record {
    publicationid = uuid;
    curriculumid = reading.payload.curriculumid;
    organisationid = reading.organisationid;
    publishedat = next_time now (head? past);
    publishedby = user;
    status = published;
    payload = some reading.payload;
    summary = summarise reading.payload.tables reading.hashes (base_of (head? past));
    payloadhash = reading.payloadhash;
  }

  unfoldable pub publish_writes : String → ℕ → String → Reading → List Publication → Shelf → Shelf
  publish_writes user now uuid reading past shelf = record shelf {
    publications =
        map (prune_row (tail_of past))
          (published_row user now uuid reading past ∷ shelf.publications);
  }

  -- The transaction of a publish: what it answers, and the shelf that it commits.
  unfoldable pub publish_commit :
      String → String → ℕ → String → Reading → Shelf → Result (String × ℕ × Shelf)
  publish_commit id user now uuid reading shelf = do
    may_publish id reading uuid shelf
    ok (
      uuid,
      next_time now (head? (history c id shelf)),
      publish_writes user now uuid reading (history c id shelf) shelf,
    )

  abbrev retire_found : String → Bool × Shelf → (Bool × PublicationState) × Shelf
  retire_found id (retired, after) = ((retired, state_of (latest_of c (id ∷ []) after id)), after)

  -- `retireCurriculum`: was something withdrawn, and the state that it answers
  unfoldable pub retire_curriculum :
      Content → Option OrgContext → String → Shelf → Result ((Bool × PublicationState) × Shelf)
  retire_curriculum t org id shelf = do
    organisationid ← publishing_organisation org retire
    assert_in_scope c t org curriculum (str id) (missing_of curriculum)
    ok (retire_found id (withdraw_publications c id shelf))

  abbrev pub delete_row : String → CurriculumRow → CurriculumRow
  delete_row id row = if matches row.curriculumid id then record row { isdeleted = true } else row

  abbrev pub deleted : Bool × Shelf → CurriculumRow → Option (Option String × Bool) × Shelf
  deleted (withdrew, after) row = (
    some (row.organisationid, withdrew),
    record after { curricula = map (delete_row row.curriculumid) after.curricula },
  )

  -- A caller is told of a curriculum that is not there; a call with none gives nothing back.
  abbrev pub delete_found :
      Option OrgContext
      → String
      → Option CurriculumRow
      → Shelf
      → Result (Option (Option String × Bool) × Shelf)
  delete_found org id (some row) shelf = ok (deleted (withdraw_publications c id shelf) row)
  delete_found none id none shelf = ok (none, shelf)
  delete_found (some org) id none shelf = err (missing_of curriculum)

  abbrev pub check_caller : Content → Option OrgContext → String → Result (Unit {0})
  check_caller t none id = ok tt
  check_caller t (some org) id =
      assert_in_scope c t (some org) curriculum (str id) (missing_of curriculum)

  -- `deleteCurriculum`: nothing where the curriculum is not there, else its organisation and
  -- whether something was withdrawn
  unfoldable pub delete_curriculum :
      Content → Option OrgContext → String → Shelf → Result (Option (Option String × Bool) × Shelf)
  delete_curriculum t org id shelf = do
    check_caller t org id
    delete_found org id
        (find (λ row. matches row.curriculumid id && not row.isdeleted) shelf.curricula) shelf
