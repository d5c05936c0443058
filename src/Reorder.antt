-- ===== src/Reorder.antt =====
-- src/business/reorder-children.ts: setting the order of all the children of one parent.
pub mod Laws
pub mod Accepted
use edtech_lms_api.Prelude.{
  ℕ, suc, String, Bool, true, false, not, ◌&&◌, Option, none, some, List, [], ◌∷◌, map, nat_eq,
  if◌then◌else◌, length, filter, find, ◌==◌, contains,
}
use edtech_lms_api.Js.{str}
use edtech_lms_api.Errors.{◌>>=◌, ◌>>◌, Failure, Result, ok, throw_if, invalid_field}
use edtech_lms_api.Claims.{OrgContext}
use edtech_lms_api.Store.{Collation}
use edtech_lms_api.Content.{ContentKind, Content}
use edtech_lms_api.Content.Kinds.{missing_of, find_owned}

-- `ReorderSpec`, without the names of columns and nouns.
pub record ReorderSpec : Type 0 where
  pub kind : ContentKind
  pub body_field : String
  pub soft_delete : Bool

-- A row of the children's table.
pub record Child : Type 0 where
  pub id : String
  pub parentid : String
  pub order : ℕ
  pub isdeleted : Bool

-- What has been counted of the list: the ids taken, and those that are elsewhere or repeated.
pub record Tally : Type 0 where
  pub taken : List String
  pub elsewhere : ℕ
  pub repeated : ℕ

abbrev pub no_tally : Tally
no_tally = record { taken = []; elsewhere = 0; repeated = 0 }

-- The 400, whose message counts what is wrong.
abbrev pub refusal : ReorderSpec → Failure
refusal spec =
    invalid_field spec.body_field
      "The list must hold every child of this parent, once each, and nothing else."

-- Is the row found a child of the parent that is not deleted?
abbrev pub is_child_of : ReorderSpec → String → Option Child → Bool
is_child_of spec parentid none = false
is_child_of spec parentid (some row) =
    row.parentid == parentid && not (spec.soft_delete && row.isdeleted)

unfoldable pub count_id : ReorderSpec → String → String → Option Child → Tally → Tally
count_id spec parentid id row tally =
    if not (is_child_of spec parentid row)
    then record tally { elsewhere = suc tally.elsewhere }
    else if contains tally.taken id
    then record tally { repeated = suc tally.repeated }
    else record tally { taken = id ∷ tally.taken }

module _ (c : Collation) where
  open c use {matches}

  abbrev pub find_child : String → List Child → Option Child
  find_child id rows = find (λ row. matches row.id id) rows

  -- With a caller, the row is the caller's, or the 404 that an absent one gets.
  abbrev pub check_owned : Content → Option OrgContext → ContentKind → String → Result (Unit {0})
  check_owned t none kind id = ok tt
  check_owned t (some org) kind id = do
    row ← find_owned c t (some org) kind (str id) (λ row. true) (missing_of kind)
    ok tt

  -- The loop over the list.
  abbrev pub tally_ids :
      Content
      → Option OrgContext
      → ReorderSpec
      → String
      → List Child
      → List String
      → Tally
      → Result Tally
  tally_ids t org spec parentid rows [] tally = ok tally
  tally_ids t org spec parentid rows (id ∷ ids) tally =
      check_owned t org spec.kind id
      >> tally_ids t org spec parentid rows ids
          (count_id spec parentid id (find_child id rows) tally)

  unfoldable pub live_children : ReorderSpec → String → List Child → List Child
  live_children spec parentid rows =
      filter (λ row. matches row.parentid parentid && not (spec.soft_delete && row.isdeleted)) rows

  abbrev pub count_missing : ReorderSpec → String → List Child → Tally → ℕ
  count_missing spec parentid rows tally =
      length (filter (λ row. not (contains tally.taken row.id)) (live_children spec parentid rows))

  abbrev pub is_exact : Tally → ℕ → Bool
  is_exact tally missing = nat_eq tally.elsewhere 0 && (nat_eq tally.repeated 0 && nat_eq missing 0)

  -- `model.update({ [orderColumn]: order }, { where: { [idColumn]: id, [parentColumn]: parentid } })`
  abbrev pub set_order : String → String → ℕ → Child → Child
  set_order parentid id order row =
      if matches row.id id && matches row.parentid parentid
      then record row { order = order }
      else row

  -- The writes: 1, 2, ... in the order of the list; `index` ids are before these.
  unfoldable pub write_orders : String → ℕ → List String → List Child → List Child
  write_orders parentid index [] rows = rows
  write_orders parentid index (id ∷ ids) rows =
      write_orders parentid (suc index) ids (map (set_order parentid id (suc index)) rows)

  -- `reorderChildren`: the children's table that it leaves
  unfoldable pub reorder_children :
      Content
      → Option OrgContext
      → ReorderSpec
      → String
      → List String
      → List Child
      → Result (List Child)
  reorder_children t org spec parentid ids rows = do
    tally ← tally_ids t org spec parentid rows ids no_tally
    throw_if (not (is_exact tally (count_missing spec parentid rows tally))) (refusal spec)
    ok (write_orders parentid 0 ids rows)
