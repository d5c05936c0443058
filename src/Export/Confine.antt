-- ===== src/Export/Confine.antt =====
-- src/business/organisation-content-export.ts: `confine` and `trimIdLists`. What they count for the
-- log is left out.
use edtech_lms_api.Prelude.{
  ℕ, String, Bool, true, false, Option, none, some, List, [], ◌∷◌, ◌++◌, ◌==◌, not, map, filter,
  find, if◌then◌else◌, length, nat_eq, contains,
}
use edtech_lms_api.Js.{Value, str, arr, null, undefined, Values, nil, cons, values, get_field, put}
use edtech_lms_api.Export.Keys.{
  Row, TableKey, Reference, IdList, content_table_keys, same_key, key_name, pk, parent, refs,
  polymorphic, id_lists, key_of, key_at,
}

-- `Partial<Record<ContentTableKey, Row[]>>`
abbrev pub Given : Type 0
Given = TableKey → Option (List Row)

-- A change of the rows of a table, where one was given.
unfoldable pub over_rows : (List Row → List Row) → Option (List Row) → Option (List Row)
over_rows f none = none
over_rows f (some rows) = some (f rows)

-- `tables[key] = rows`
unfoldable pub set_table : TableKey → Option (List Row) → Given → Given
set_table key rows given k = if same_key k key then rows else given k

-- What `confine` throws for: the rows of a table that name a row which is not in the payload.
pub record Problem : Type 0 where
  pub key : TableKey
  pub to : TableKey
  pub missing : ℕ

-- The 400 with its problems, or the tables.
pub data Confined : Type 0 where
  refused : List Problem → Confined
  checked : Given → Confined

-- `list.filter((id) => id !== null)`
abbrev pub somes : List (Option String) → List String
somes [] = []
somes (none ∷ ids) = somes ids
somes (some id ∷ ids) = id ∷ somes ids

abbrev pub array : List Value → Values
array [] = nil
array (v ∷ vs) = cons v (array vs)

-- The ids are those that a value has as its key; `lower` is the language's lower-casing, `parse`
-- its reading of a JSON text, nothing where that throws.
module _ (lower : String → String) where
  -- The keys that a column of the rows has.
  abbrev pub keys_at : String → List Row → List String
  keys_at column rows = somes (map (key_at lower column) rows)

  -- `idsIn(key)`
  unfoldable pub ids_in : TableKey → Given → Option (List String)
  ids_in key given = ids_at key (given key)
    where
      ids_at : TableKey → Option (List Row) → Option (List String)
      ids_at key none = none
      ids_at key (some rows) = some (keys_at (pk key) rows)

  -- `id !== null && ids.has(id)`
  unfoldable pub is_among : List String → Option String → Bool
  is_among ids none = false
  is_among ids (some id) = contains ids id

  -- The rows of a table that hang from a row of the table given; all of them where none was given.
  abbrev pub hanging : String → Option (List String) → List Row → List Row
  hanging fk none rows = rows
  hanging fk (some ids) rows = filter (λ row. is_among ids (key_at lower fk row)) rows

  abbrev pub kept_rows : Option Reference → Given → Option (List Row) → Option (List Row)
  kept_rows none given rows = rows
  kept_rows (some up) given rows = over_rows (hanging up.fk (ids_in up.to given)) rows

  -- The first loop: a table keeps the rows that hang from a row that was kept before it.
  abbrev pub drop_orphans : List TableKey → Given → Given
  drop_orphans [] given = given
  drop_orphans (key ∷ keys) given =
      drop_orphans keys (set_table key (kept_rows (parent key) given (given key)) given)

  -- A table that was not given cannot be checked.
  abbrev pub named_in : Option (List String) → Option String → Bool
  named_in none id = true
  named_in (some ids) id = is_among ids id

  -- Does a row with a polymorphic parent hang from a row of the tables?
  abbrev pub found_in : Given → Option TableKey → Option String → Bool
  found_in given none id = false
  found_in given (some key) id = named_in (ids_in key given) id

  abbrev pub table_at : List TableKey → Value → Option TableKey
  table_at tables (str name) = find (λ key. key_name key == name) tables
  table_at tables _ = none

  unfoldable pub has_parent : List TableKey → Given → Row → Bool
  has_parent tables given row =
      found_in given (table_at tables (get_field "tablename" row)) (key_at lower "rowid" row)

  abbrev pub kept_polymorphic :
      Option (List TableKey) → Given → Option (List Row) → Option (List Row)
  kept_polymorphic none given rows = rows
  kept_polymorphic (some tables) given rows = over_rows (filter (has_parent tables given)) rows

  -- The second loop.
  abbrev pub drop_polymorphic : List TableKey → Given → Given
  drop_polymorphic [] given = given
  drop_polymorphic (key ∷ keys) given =
      drop_polymorphic keys
        (set_table key (kept_polymorphic (polymorphic key) given (given key)) given)

  -- The tables after the two loops that leave rows out.
  unfoldable pub reachable : Given → Given
  reachable given = drop_polymorphic content_table_keys (drop_orphans content_table_keys given)

  -- Is what a row names missing from the ids?
  abbrev pub is_missing : Reference → List String → Option String → Bool
  is_missing ref ids none = not ref.optional
  is_missing ref ids (some id) = not (contains ids id)

  unfoldable pub problem_of : TableKey → Reference → Option (List String) → List Row → List Problem
  problem_of key ref none rows = []
  problem_of key ref (some ids) rows =
      let missing = length (filter (λ row. is_missing ref ids (key_at lower ref.fk row)) rows) in
      if nat_eq missing 0 then [] else record { key = key; to = ref.to; missing = missing } ∷ []

  abbrev pub problems_of_table : Given → TableKey → List Row → List Reference → List Problem
  problems_of_table given key rows [] = []
  problems_of_table given key rows (ref ∷ more) =
      problem_of key ref (ids_in ref.to given) rows ++ problems_of_table given key rows more

  -- The third loop.
  unfoldable pub problems_of : List TableKey → Given → List Problem
  problems_of [] given = []
  problems_of (key ∷ keys) given = elim (given key) [
    | none ↦ problems_of keys given
    | some rows ↦ problems_of_table given key rows (refs key) ++ problems_of keys given
  ]

  module _ (parse : String → Option Value) where
    -- `listOf`
    abbrev pub list_of : Value → Option (List Value)
    list_of (arr vs) = some (values vs)
    list_of (str s) = elim (parse s) [ none ↦ none | some v ↦ elem v ]
      where
        elem : Value → Option (List Value)
        elem (arr vs) = some (values vs)
        elem _ = none
    list_of _ = none

    abbrev pub kept_entries : List String → Option (List Value) → List Value
    kept_entries ids none = []
    kept_entries ids (some entries) = filter (λ v. is_among ids (key_of lower v)) entries

    -- A row with one of its lists of ids, as it was, trimmed.
    abbrev pub with_list : String → List String → Value → Row → Row
    with_list column ids undefined row = row
    with_list column ids null row = row
    with_list column ids v row = put column (arr (array (kept_entries ids (list_of v)))) row

    unfoldable pub trim_row : String → List String → Row → Row
    trim_row column ids row = with_list column ids (get_field column row) row

    abbrev pub trimmed_by : String → Option (List String) → Option (List Row) → Option (List Row)
    trimmed_by column none rows = rows
    trimmed_by column (some ids) rows = over_rows (map (trim_row column ids)) rows

    abbrev pub trim_rows : IdList → Given → Option (List Row) → Option (List Row)
    trim_rows list given rows = trimmed_by list.column (ids_in list.to given) rows

    abbrev pub trim_table : TableKey → List IdList → Given → Given
    trim_table key [] given = given
    trim_table key (list ∷ lists) given =
        trim_table key lists (set_table key (trim_rows list given (given key)) given)

    abbrev pub trim_tables : List TableKey → Given → Given
    trim_tables [] given = given
    trim_tables (key ∷ keys) given = trim_tables keys (trim_table key (id_lists key) given)

    -- `trimIdLists`
    unfoldable pub trim_id_lists : Given → Given
    trim_id_lists given = trim_tables content_table_keys given

    abbrev pub answer : Given → List Problem → Confined
    answer tables [] = checked (trim_id_lists tables)
    answer tables (p ∷ ps) = refused (p ∷ ps)

    -- `confine`
    unfoldable pub confine : Given → Confined
    confine given =
        let tables = reachable given in answer tables (problems_of content_table_keys tables)
