-- ===== src/Export/Columns.antt =====
-- src/business/organisation-content-export.ts: trimming the lists of ids changes no other column.
use edtech_lms_api.Prelude.{
  String, ◌≡◌, refl, ap, ◌∙◌, inl, inr, false, Option, none, some, List, [], ◌∷◌, map, arith,
  Bool-cases, Option-cases, any, ◌==◌, eq_true,
}
use edtech_lms_api.Js.{
  Value, Fields, undefined, null, bool, num, str, arr, obj, end, field, get_field, put,
}
use edtech_lms_api.Export.Keys.{pk, Row, TableKey, IdList, id_lists, key_of, key_at}
use edtech_lms_api.Export.Confine.{
  trimmed_by, somes, ids_in, with_list, Given, over_rows, ids_in, trim_row, trim_rows,
  trim_id_lists,
}
use edtech_lms_api.Export.Tables.{names_of, column_in, is_trimmed, trim_lists, trim-table}

get_field-put_other :
    (k j : String) (v : Value) (fs : Fields)
    → (k == j) ≡ false
    → get_field j (put k v fs) ≡ get_field j fs
unfolding get_field put
get_field-put_other k j v end h = ground arith
get_field-put_other k j v (field i w fs) h = elim (Bool-cases (i == k)) [
  | inl e ↦ let same : (i == j) ≡ false = ap (λ x. x == j) (eq_true i k e) ∙ h in ground arith
  | inr e ↦ ground (arith, get_field-put_other k j v fs h)
]

module _ (lower : String → String) where
  key_at-put :
      (k j : String) (v : Value) (row : Row)
      → (k == j) ≡ false
      → key_at lower j (put k v row) ≡ key_at lower j row
  unfolding key_at
  key_at-put k j v row h = ap (key_of lower) (get_field-put_other k j v row h)

  module _ (parse : String → Option Value) where
    key_at-with_list :
        (column j : String) (ids : List String) (v : Value) (row : Row)
        → (column == j) ≡ false
        → key_at lower j (with_list lower parse column ids v row) ≡ key_at lower j row
    key_at-with_list column j ids undefined row h = refl
    key_at-with_list column j ids null row h = refl
    key_at-with_list column j ids (bool b) row h = key_at-put column j _ row h
    key_at-with_list column j ids (num n) row h = key_at-put column j _ row h
    key_at-with_list column j ids (str s) row h = key_at-put column j _ row h
    key_at-with_list column j ids (arr vs) row h = key_at-put column j _ row h
    key_at-with_list column j ids (obj fs) row h = key_at-put column j _ row h

    key_at-trim_row :
        (column j : String) (ids : List String) (row : Row)
        → (column == j) ≡ false
        → key_at lower j (trim_row lower parse column ids row) ≡ key_at lower j row
    unfolding trim_row
    key_at-trim_row column j ids row h = key_at-with_list column j ids (get_field column row) row h

    keys-trimmed :
        (column j : String) (ids : List String) (rows : List Row)
        → (column == j) ≡ false
        → map (key_at lower j) (map (trim_row lower parse column ids) rows)
          ≡ map (key_at lower j) rows
    keys-trimmed column j ids [] h = refl
    keys-trimmed column j ids (row ∷ rows) h =
        λ i. key_at-trim_row column j ids row h i ∷ keys-trimmed column j ids rows h i

    names_of-trimmed_by :
        (column j : String) (ids : Option (List String)) (rows : Option (List Row))
        → (column == j) ≡ false
        → names_of lower j (trimmed_by lower parse column ids rows) ≡ names_of lower j rows
    unfolding over_rows
    names_of-trimmed_by column j none rows h = refl
    names_of-trimmed_by column j (some ids) none h = refl
    names_of-trimmed_by column j (some ids) (some rows) h = keys-trimmed column j ids rows h

    names_of-trim_lists :
        (lists : List IdList) (given : Given) (j : String) (rows : Option (List Row))
        → any (λ list. list.column == j) lists ≡ false
        → names_of lower j (trim_lists lower parse lists given rows) ≡ names_of lower j rows
    names_of-trim_lists [] given j rows h = refl
    names_of-trim_lists (list ∷ lists) given j rows h =
        names_of-trim_lists lists given j (trim_rows lower parse list given rows) (ground arith)
        ∙ names_of-trimmed_by list.column j (ids_in lower list.to given) rows (ground arith)

    pub column_in-trim :
        (given : Given) (k : TableKey) (j : String)
        → is_trimmed k j ≡ false
        → column_in lower j k (trim_id_lists lower parse given) ≡ column_in lower j k given
    column_in-trim given k j h =
        ap (names_of lower j) (trim-table lower parse given k)
        ∙ names_of-trim_lists (id_lists k) (trim_id_lists lower parse given) j (given k) h

  -- The ids of a table are the keys of its first column.
  pub ids_in-some :
      (k : TableKey) (given : Given) (ids : List String)
      → ids_in lower k given ≡ some ids
      → ids ≡ somes (column_in lower (pk k) k given)
  unfolding ids_in
  ids_in-some k given ids h = elim (Option-cases (given k)) [
    | inl e ↦ absurd (ground arith)
    | inr (rows, e) ↦ ground arith
  ]
