-- ===== src/Publication/Merge.antt =====
-- src/business/published-content.ts: the published copy of each curriculum, merged.
use edtech_lms_api.Prelude.{
  ℕ, String, Bool, true, false, not, ◌&&◌, Option, none, some, List, [], ◌∷◌, ◌++◌, leb, nat_eq,
  if◌then◌else◌, filter, ◌==◌, codes, contains,
}
use edtech_lms_api.Js.{get_field}
use edtech_lms_api.Export.Keys.{Row, TableKey, curriculums, curriculum_content_keys, pk, key_at}
use edtech_lms_api.Export.Confine.{keys_at, table_at}
use edtech_lms_api.Publication.Payload.{Tables, is_translations, id_text}
use Prim.Native.Nat.{Ordering}

-- One curriculum's latest publication. A set is told from another by its publication's id, the
-- primary key, where the code compares the objects.
pub record PublishedSet : Type 0 where
  pub publicationid : String
  pub curriculumid : String
  pub publishedat : ℕ
  pub tables : Tables

abbrev pub codes_before : List ℕ → List ℕ → Bool
codes_before xs [] = false
codes_before [] (y ∷ ys) = true
codes_before (x ∷ xs) (y ∷ ys) = if nat_eq x y then codes_before xs ys else leb x y

-- `a < b` on texts; the code points of an id are its code units.
unfoldable pub text_before : String → String → Bool
text_before a b = codes_before (codes a) (codes b)

-- `byAge(a, b) < 0`
unfoldable pub is_older_set : PublishedSet → PublishedSet → Bool
is_older_set a b =
    if nat_eq a.publishedat b.publishedat
    then text_before a.publicationid b.publicationid
    else leb a.publishedat b.publishedat

-- `winner.get(table)?.get(id) === set`
abbrev pub is_set : Option PublishedSet → PublishedSet → Bool
is_set none s = false
is_set (some w) s = w.publicationid == s.publicationid

-- The newer of the copy held and another.
abbrev pub newer_set : Option PublishedSet → PublishedSet → PublishedSet
newer_set none s = s
newer_set (some held) s = if is_older_set held s then s else held

abbrev pub if_taken : Bool → Row → List Row → List Row → List Row
if_taken true row with_it without_it = row ∷ with_it
if_taken false row with_it without_it = without_it

module _ (lower : String → String) where
  -- Is a row of that id in the set's table?
  unfoldable pub holds : TableKey → String → PublishedSet → Bool
  holds table id s = contains (keys_at lower (pk table) (s.tables table)) id

  -- `winner.get(table).get(id)`, after the sets given
  abbrev pub winner_from :
      TableKey → String → Option PublishedSet → List PublishedSet → Option PublishedSet
  winner_from table id held [] = held
  winner_from table id held (s ∷ sets) =
      winner_from table id (if holds table id s then some (newer_set held s) else held) sets

  unfoldable pub winner : TableKey → String → List PublishedSet → Option PublishedSet
  winner table id sets = winner_from table id none sets

  -- The rows of a table, set by set.
  abbrev pub tagged : PublishedSet → List Row → List (PublishedSet × Row)
  tagged s [] = []
  tagged s (row ∷ rows) = (s, row) ∷ tagged s rows

  abbrev pub emitted : TableKey → List PublishedSet → List (PublishedSet × Row)
  emitted table [] = []
  emitted table (s ∷ sets) = tagged s (s.tables table) ++ emitted table sets

  -- Is the row the winning copy, and its id not taken yet?
  abbrev pub is_taken_from :
      TableKey → List PublishedSet → List String → PublishedSet → Option String → Bool
  is_taken_from table sets taken s none = false
  is_taken_from table sets taken s (some id) =
      is_set (winner table id sets) s && not (contains taken id)

  abbrev pub taking : Option String → List String → List String
  taking none taken = taken
  taking (some id) taken = id ∷ taken

  abbrev pub take_rows :
      TableKey → List PublishedSet → List String → List (PublishedSet × Row) → List Row
  take_rows table sets taken [] = []
  take_rows table sets taken ((s, row) ∷ rows) =
      let id = key_at lower (pk table) row in
      if_taken (is_taken_from table sets taken s id) row
        (take_rows table sets (taking id taken) rows) (take_rows table sets taken rows)

  -- Is a translation of the publication that its parent was taken from?
  abbrev pub goes_with : List PublishedSet → Option TableKey → Option String → PublishedSet → Bool
  goes_with sets none id s = false
  goes_with sets (some table) none s = false
  goes_with sets (some table) (some id) s =
      if is_translations table then false else is_set (winner table id sets) s

  unfoldable pub is_kept_translation : List PublishedSet → PublishedSet × Row → Bool
  is_kept_translation sets (s, row) =
      goes_with sets (table_at lower curriculum_content_keys (get_field "tablename" row))
        (key_at lower "rowid" row) s

  abbrev pub rows_of_pairs : List (PublishedSet × Row) → List Row
  rows_of_pairs [] = []
  rows_of_pairs ((s, row) ∷ rows) = row ∷ rows_of_pairs rows

  -- The order in which publications are sent: by curriculum name, which `locale` compares, and id.
  module _ (locale : String → String → Ordering) where
    abbrev curriculum_name : PublishedSet → String
    curriculum_name s = first_name (s.tables curriculums)
      where
        first_name : List Row → String
        first_name [] = ""
        first_name (row ∷ rows) = id_text (get_field "curriculumname" row)

    abbrev pub sent_before : PublishedSet → PublishedSet → Bool
    sent_before a b = elim (locale (curriculum_name a) (curriculum_name b)) [
      | Ordering.lt ↦ true
      | Ordering.gt ↦ false
      | Ordering.eq ↦ not (text_before b.curriculumid a.curriculumid)
    ]

    abbrev pub insert_sent : PublishedSet → List PublishedSet → List PublishedSet
    insert_sent s [] = s ∷ []
    insert_sent s (t ∷ sets) = if sent_before s t then s ∷ t ∷ sets else t ∷ insert_sent s sets

    unfoldable pub sent_order : List PublishedSet → List PublishedSet
    sent_order [] = []
    sent_order (s ∷ sets) = insert_sent s (sent_order sets)

    -- `mergePublished`
    unfoldable pub merge_published : List PublishedSet → Tables
    merge_published sets table =
        let rows = emitted table (sent_order sets) in
        if is_translations table
        then rows_of_pairs (filter (is_kept_translation sets) rows)
        else take_rows table sets [] rows
