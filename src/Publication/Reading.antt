-- ===== src/Publication/Reading.antt =====
-- src/business/curriculum-publication.ts: what a publish reads, and the summary that it writes.
use edtech_lms_api.Prelude.{
  ℕ, suc, String, Option, none, some, List, [], ◌∷◌, leb, if◌then◌else◌, length,
}
use edtech_lms_api.Js.{get_field}
use edtech_lms_api.Errors.{
  ◌>>=◌, not_found, invalid_input, already_exists, Failure, Result, err, ok, coded, saying,
}
use edtech_lms_api.Claims.{OrgContext}
use edtech_lms_api.Scope.{platform, organisation, scope_of}
use edtech_lms_api.Content.{column}
use edtech_lms_api.Export.Keys.{Row, questions, lessons}
use edtech_lms_api.Publication.Payload.{
  Tables, Payload, id_text, Unpublishable, no_curriculum, Built, refusal, built,
}
use edtech_lms_api.Publication.Hashes.{Entries, RowHashes, set_hash, diff_hashes}
use edtech_lms_api.Publication.Shelf.{is_published, Summary, Publication}

pub data Verb : Type 0 where
  publish retire : Verb

abbrev pub choose_organisation : Verb → String
choose_organisation publish =
    "Choose an organisation to act in before you publish a curriculum. Use the organisation switcher, then try again."
choose_organisation retire =
    "Choose an organisation to act in before you retire a curriculum. Use the organisation switcher, then try again."

-- `publishingOrganisation`
unfoldable pub publishing_organisation : Option OrgContext → Verb → Result String
publishing_organisation org verb = do
  scope ← scope_of org
  elim scope [
    | platform ↦ err (saying invalid_input (choose_organisation verb))
    | organisation id ↦ ok id
  ]

-- The refusal of a payload. The message of a 400 lists what is wrong, and is not modelled.
abbrev pub failure_of : Unpublishable → Failure
failure_of no_curriculum = saying not_found "That curriculum doesn't exist."
failure_of why = coded invalid_input

abbrev pub built_or_throw : {A : Type 0} → Built A → Result A
built_or_throw (refusal why) = err (failure_of why)
built_or_throw (built a) = ok a

abbrev pub published_meanwhile : Failure
published_meanwhile =
    saying already_exists
      "This curriculum was published a moment ago by someone else. Reload and publish again."

-- What a publish has read before its transaction opens.
pub record Reading : Type 0 where
  pub organisationid : String
  -- the latest publication's id when the reads began
  pub noted : Option String
  pub payload : Payload
  pub hashes : RowHashes
  pub payloadhash : String

abbrev pub id_of : Option Publication → Option String
id_of none = none
id_of (some p) = some p.publicationid

-- `nextTime`
abbrev pub next_time : ℕ → Option Publication → ℕ
next_time now none = now
next_time now (some p) = if leb now p.publishedat then suc p.publishedat else now

-- `baseOf`, as the id and the hashes to compare with
abbrev pub base_hashes : Publication → Option RowHashes → Option (String × RowHashes)
base_hashes p none = none
base_hashes p (some hashes) = some (p.publicationid, hashes)

abbrev pub base_of : Option Publication → Option (String × RowHashes)
base_of none = none
base_of (some p) = if is_published p.status then base_hashes p p.summary.hashes else none

abbrev pub previous_id : Option (String × RowHashes) → Option String
previous_id none = none
previous_id (some (id, hashes)) = some id

abbrev pub previous_hashes : Option (String × RowHashes) → Option RowHashes
previous_hashes none = none
previous_hashes (some (id, hashes)) = some hashes

abbrev pub names_by : String → String → List Row → Entries
names_by key column [] = []
names_by key column (row ∷ rows) =
    set_hash (id_text (get_field key row)) (id_text (get_field column row))
      (names_by key column rows)

-- `summarise`, without the lists of what was affected, shared or moved
unfoldable pub summarise : Tables → RowHashes → Option (String × RowHashes) → Summary
summarise tables hashes base = record {
  slim = record {
    previous = previous_id base;
    counts = λ key. length (tables key);
    changes = λ key.
        let d = diff_hashes hashes (previous_hashes base) key in
        record { added = length d.added; removed = length d.removed; changed = length d.changed };
  };
  names = some record {
    lessons = names_by "lessonid" "lessonname" (tables lessons);
    questions = names_by "questionid" "questionidentifier" (tables questions);
  };
  hashes = some hashes;
}
