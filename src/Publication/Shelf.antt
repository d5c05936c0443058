-- ===== src/Publication/Shelf.antt =====
-- src/models/data-models/curriculumpublications.ts, src/business/curriculum-publication.ts and
-- src/business/publication-withdraw.ts: the stored publications, and what is read of them.
use edtech_lms_api.Prelude.{
  ℕ, String, Bool, true, false, ◌&&◌, Option, none, some, List, [], ◌∷◌, map, leb, if◌then◌else◌,
  filter, find, any, ◌==◌,
}
use edtech_lms_api.Store.{Collation}
use edtech_lms_api.Publication.Payload.{Payload}
use edtech_lms_api.Publication.Hashes.{Entries, RowHashes}
use edtech_lms_api.Export.Keys.{TableKey}

pub data Status : Type 0 where
  published withdrawn : Status

abbrev pub is_published : Status → Bool
is_published published = true
is_published withdrawn = false

pub record TableChange : Type 0 where
  pub added : ℕ
  pub removed : ℕ
  pub changed : ℕ

-- What a summary keeps for good.
pub record SlimSummary : Type 0 where
  pub previous : Option String
  pub counts : TableKey → ℕ
  pub changes : TableKey → TableChange

pub record SummaryNames : Type 0 where
  pub lessons : Entries
  pub questions : Entries

-- `StoredSummary`: the names and the hashes are those of the latest two publications.
pub record Summary : Type 0 where
  pub slim : SlimSummary
  pub names : Option SummaryNames
  pub hashes : Option RowHashes

-- `slimSummary`
abbrev pub slim_summary : Summary → Summary
slim_summary summary = record { slim = summary.slim; names = none; hashes = none }

-- A row of `curriculumpublications`; `publishedat` in milliseconds.
pub record Publication : Type 0 where
  pub publicationid : String
  pub curriculumid : String
  pub organisationid : String
  pub publishedat : ℕ
  pub publishedby : String
  pub status : Status
  pub payload : Option Payload
  pub summary : Summary
  pub payloadhash : String

-- What publishing and reading publications use of a row of `curriculums`.
pub record CurriculumRow : Type 0 where
  pub curriculumid : String
  pub organisationid : Option String
  pub isdeleted : Bool

pub record Shelf : Type 0 where
  pub publications : List Publication
  pub curricula : List CurriculumRow

-- `order: [["publishedat", "DESC"]]`
abbrev pub insert_newest : Publication → List Publication → List Publication
insert_newest p [] = p ∷ []
insert_newest p (q ∷ qs) =
    if leb q.publishedat p.publishedat then p ∷ q ∷ qs else q ∷ insert_newest p qs

unfoldable pub newest_first : List Publication → List Publication
newest_first [] = []
newest_first (p ∷ ps) = insert_newest p (newest_first ps)

-- What a list of curricula shows of one.
pub data PublicationState : Type 0 where
  never : PublicationState
  state : (publicationid : String) (publishedat : Option ℕ) (status : Status) → PublicationState

-- `stateOf`
abbrev pub state_of : Option Publication → PublicationState
state_of none = never
state_of (some p) =
    state p.publicationid (if is_published p.status then some p.publishedat else none) p.status

module _ (c : Collation) where
  open c use {matches}

  -- The publications of a curriculum, newest first.
  unfoldable pub history : String → Shelf → List Publication
  history id shelf = newest_first (filter (λ p. matches p.curriculumid id) shelf.publications)

  -- `(await latestOf(ids)).get(id)`: the query compares as the database does, the map by `===`.
  unfoldable pub latest_of : List String → Shelf → String → Option Publication
  latest_of ids shelf id =
      find (λ p. p.curriculumid == id)
        (newest_first (filter (λ p. any (λ i. matches p.curriculumid i) ids) shelf.publications))

  -- `publicationStates`
  unfoldable pub publication_states : List String → Shelf → List (String × PublicationState)
  publication_states ids shelf = map (λ id. (id, state_of (latest_of ids shelf id))) ids

  abbrev pub is_live_publication : String → Publication → Bool
  is_live_publication id p = matches p.curriculumid id && is_published p.status

  abbrev pub withdraw_row : String → Publication → Publication
  withdraw_row id p = if is_live_publication id p then record p { status = withdrawn } else p

  -- `withdrawPublications`
  unfoldable pub withdraw_publications : String → Shelf → Bool × Shelf
  withdraw_publications id shelf = (
    any (is_live_publication id) shelf.publications,
    record shelf { publications = map (withdraw_row id) shelf.publications },
  )
