-- ===== src/Reorder/Accepted.antt =====
-- src/business/reorder-children.ts: the children after a list that is accepted.
use edtech_lms_api.Prelude.{
  ℕ, suc, ◌≤◌, ◌<◌, String, ◌≡◌, refl, sym, ap, ◌∙◌, subst, inl, inr, Bool, true, false, not, ◌&&◌,
  ◌||◌, Option, List, [], ◌∷◌, arith, nat_eq, Bool-cases, &&_true, ||_true, length, filter, find,
  IsIn, IsIn-filter, IsIn-filter_of, contains, IsIn-map,
}
use edtech_lms_api.Errors.{ok, >>=-eq-ok, throw_if-eq-ok, ok-injective, >>-eq-ok}
use edtech_lms_api.Claims.{OrgContext}
use edtech_lms_api.Store.{Collation}
use edtech_lms_api.Content.{Content}
use edtech_lms_api.Reorder.{
  ReorderSpec, Child, Tally, no_tally, is_child_of, count_id, check_owned, tally_ids, live_children,
  set_order, reorder_children,
}
use edtech_lms_api.Reorder.Laws.{order_row, write_orders-map, set_order-id, order_row-bounds}

count_id-taken :
    (spec : ReorderSpec) (parentid id : String) (row : Option Child) (tally : Tally) (x : String)
    → contains (count_id spec parentid id row tally).taken x ≡ true
    → contains (id ∷ []) x || contains tally.taken x ≡ true
unfolding count_id contains
count_id-taken spec parentid id row tally x h = elim (Bool-cases (is_child_of spec parentid row)) [
  | inl e ↦ elim (Bool-cases (contains tally.taken id)) [
    | inl f ↦ ground arith
    | inr f ↦ ground arith
  ]
  | inr e ↦ ground arith
]

filter-length_zero :
    (p : Child → Bool) (rows : List Child) (row : Child)
    → length (filter p rows) ≡ 0
    → IsIn row rows
    → p row ≡ false
filter-length_zero p [] row h m = absurd m
filter-length_zero p (x ∷ rows) row h m = elim (Bool-cases (p x)) [
  | inl e ↦ absurd (ground arith)
  | inr e ↦ elim m [
    | inl same ↦ ap p (sym same) ∙ e
    | inr later ↦ filter-length_zero p rows row (ground arith) later
  ]
]

nat_eq-zero : (n : ℕ) → nat_eq n 0 ≡ true → n ≡ 0
nat_eq-zero n h = ground arith

module _ (c : Collation) where
  open c use {matches}

  -- What is taken stands in the list.
  tally_ids-taken :
      (t : Content) (org : Option OrgContext) (spec : ReorderSpec) (parentid : String)
      (rows : List Child) (ids : List String) (tally done : Tally) (x : String)
      → tally_ids c t org spec parentid rows ids tally ≡ ok done
      → contains done.taken x ≡ true
      → contains ids x || contains tally.taken x ≡ true
  unfolding contains
  tally_ids-taken t org spec parentid rows [] tally done x h m =
      ap (λ (d : Tally). contains d.taken x) (ok-injective h) ∙ m
  tally_ids-taken t org spec parentid rows (id ∷ ids) tally done x h m =
      let (owned, rest) = >>-eq-ok (check_owned c t org spec.kind id) _ h in
      let later =
        tally_ids-taken t org spec parentid rows ids
          (count_id spec parentid id (find (λ row. matches row.id id) rows) tally) done x rest m in
      elim (||_true (contains ids x) _ later) [
        | inl there ↦ ground (arith, there)
        | inr counted ↦ ground (
          arith,
          count_id-taken spec parentid id (find (λ row. matches row.id id) rows) tally x counted,
        )
      ]

  set_orders-keep :
      (parentid : String) (index : ℕ) (ids : List String) (row : Child)
      → ((order_row c parentid index ids row).id ≡ row.id)
        × ((order_row c parentid index ids row).parentid ≡ row.parentid)
        × ((order_row c parentid index ids row).isdeleted ≡ row.isdeleted)
  set_orders-keep parentid index [] row = (refl, refl, refl)
  set_orders-keep parentid index (id ∷ ids) row =
      let (a, b, d) =
        set_orders-keep parentid (suc index) ids (set_order c parentid id (suc index) row) in
      let (key, up) = set_order-id c parentid id (suc index) row in
      (a ∙ key, b ∙ up, d ∙ deleted_kept)
    where
      deleted_kept : (set_order c parentid id (suc index) row).isdeleted ≡ row.isdeleted
      deleted_kept = elim (Bool-cases (matches row.id id && matches row.parentid parentid)) [
        | inl e ↦ rw (e) refl
        | inr e ↦ rw (e) refl
      ]

  -- Where a list is accepted, every child of the parent that is not deleted stands in the list, and
  -- has afterwards an order from 1 to the list's length.
  pub reorder_children-bounds :
      (t : Content) (org : Option OrgContext) (spec : ReorderSpec) (parentid : String)
      (ids : List String) (rows after : List Child) (row : Child)
      → reorder_children c t org spec parentid ids rows ≡ ok after
      → IsIn row (live_children c spec parentid after)
      → (contains ids row.id ≡ true) × (0 < row.order) × (row.order ≤ length ids)
  unfolding reorder_children live_children contains
  reorder_children-bounds t org spec parentid ids rows after row h m =
      let (tally, counted, rest) =
        >>=-eq-ok (tally_ids c t org spec parentid rows ids no_tally) _ h in
      let (exact, written) = >>-eq-ok _ _ rest in
      let (stored, live) =
        IsIn-filter
          (λ row. matches row.parentid parentid && not (spec.soft_delete && row.isdeleted)) row
          after m in
      let (before, there, same) = IsIn-map (order_row c parentid 0 ids) row rows (
        subst (IsIn row) (sym (ok-injective written) ∙ write_orders-map c parentid 0 ids rows)
          stored) in
      let (key, up, gone) = set_orders-keep parentid 0 ids before in
      let was_live : (matches before.parentid parentid
            && not (spec.soft_delete && before.isdeleted))
          ≡ true =
        (λ i. matches (sym up i) parentid && not (spec.soft_delete && sym gone i))
        ∙ ap (λ (r : Child). matches r.parentid parentid && not (spec.soft_delete && r.isdeleted))
            same
        ∙ live in
      let none_missing = (&&_true _ _ (&&_true _ _ (not-false _ (throw_if-eq-ok _ _ exact))).1).1 in
      let taken =
        filter-length_zero (λ row. not (contains tally.taken row.id)) _ before
          (nat_eq-zero _ none_missing)
          (IsIn-filter_of
            (λ row. matches row.parentid parentid && not (spec.soft_delete && row.isdeleted)) before
            rows there was_live) in
      let listed = in_ids (contains ids before.id) (
        tally_ids-taken t org spec parentid rows ids no_tally tally before.id counted
          (not-false _ taken)) in
      let (low, high) =
        order_row-bounds c parentid 0 ids 0 (length ids) before (omega arith) (omega arith)
          (&&_true _ _ was_live).0 listed in
      (
        ap (λ (r : Child). contains ids r.id) (sym same) ∙ ap (contains ids) key ∙ listed,
        subst (λ (r : Child). 0 < r.order) same low,
        subst (λ (r : Child). r.order ≤ length ids) same high,
      )
    where
      not-false : (b : Bool) → not b ≡ false → b ≡ true
      not-false b h = ground arith

      in_ids : (b : Bool) → b || contains [] "" ≡ true → b ≡ true
      in_ids b h = ground arith
