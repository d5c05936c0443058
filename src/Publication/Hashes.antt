-- ===== src/Publication/Hashes.antt =====
-- src/business/curriculum-publication.ts: the hashes of a payload's rows, and what changed between
-- two payloads.
use edtech_lms_api.Prelude.{
  String, Bool, true, false, not, ◌&&◌, Option, none, some, List, [], ◌∷◌, if◌then◌else◌, is_some,
  filter, ◌==◌, contains,
}
use edtech_lms_api.Js.{end, field, get_field}
use edtech_lms_api.Export.Keys.{Row, TableKey, pk}
use edtech_lms_api.Publication.Payload.{Tables, id_text}

-- `Object.entries(hashes[table])`: each id with the hash of its row.
abbrev pub Entries : Type 0
Entries = List (String × String)

-- `RowHashes`
abbrev pub RowHashes : Type 0
RowHashes = TableKey → Entries

-- `entries[id]`
abbrev pub hash_at : String → Entries → Option String
hash_at id [] = none
hash_at id ((i, h) ∷ entries) = if i == id then some h else hash_at id entries

-- `entries[id] = hash`
abbrev pub set_hash : String → String → Entries → Entries
set_hash id hash [] = (id, hash) ∷ []
set_hash id hash ((i, h) ∷ entries) =
    if i == id then (i, hash) ∷ entries else (i, h) ∷ set_hash id hash entries

-- `Object.keys(entries)`
abbrev pub ids_of : Entries → List String
ids_of [] = []
ids_of ((i, h) ∷ entries) = i ∷ ids_of entries

-- `HASH_EXCLUDED`
abbrev pub hash_excluded : List String
hash_excluded =
    "created_at" ∷ "created_by" ∷ "updated_at" ∷ "updated_by" ∷ "deleted_at" ∷ "deleted_by"
    ∷ "lastupdated" ∷ []

-- The columns of a row that its hash is of.
unfoldable pub hashed_columns : Row → Row
hashed_columns end = end
hashed_columns (field column v more) =
    if contains hash_excluded column
    then hashed_columns more
    else field column v (hashed_columns more)

-- `text` is the JSON of a row with its keys sorted, `sha256` the digest of a text.
module _ (text : Row → String) (sha256 : String → String) where
  unfoldable pub row_hash : Row → String
  row_hash row = sha256 (text (hashed_columns row))

  abbrev hash_rows : TableKey → Entries → List Row → Entries
  hash_rows key entries [] = entries
  hash_rows key entries (row ∷ rows) =
      hash_rows key (set_hash (id_text (get_field (pk key) row)) (row_hash row) entries) rows

  -- `hashTables`
  unfoldable pub hash_tables : Tables → RowHashes
  hash_tables tables key = hash_rows key [] (tables key)

-- The ids of a table's rows that are new, gone and changed.
pub record Diff : Type 0 where
  pub added : List String
  pub removed : List String
  pub changed : List String

abbrev pub differs : Option String → Option String → Bool
differs (some before) (some now) = not (before == now)
differs _ _ = false

abbrev pub is_hashed : String → Entries → Bool
is_hashed id entries = is_some (hash_at id entries)

abbrev entries_before : TableKey → Option RowHashes → Entries
entries_before key none = []
entries_before key (some hashes) = hashes key

-- One table of `diffHashes`
unfoldable pub diff_entries : Entries → Entries → Diff
diff_entries now before = record {
  added = filter (λ id. not (is_hashed id before)) (ids_of now);
  removed = filter (λ id. not (is_hashed id now)) (ids_of before);
  changed = filter (λ id. differs (hash_at id before) (hash_at id now)) (ids_of now);
}

-- `diffHashes`
unfoldable pub diff_hashes : RowHashes → Option RowHashes → TableKey → Diff
diff_hashes current previous key = diff_entries (current key) (entries_before key previous)

-- No id at all.
abbrev pub is_no_id : List String → Bool
is_no_id [] = true
is_no_id (id ∷ ids) = false

abbrev pub is_no_change : Diff → Bool
is_no_change d = is_no_id d.added && (is_no_id d.removed && is_no_id d.changed)
