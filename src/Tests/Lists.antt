-- ===== src/Tests/Lists.antt =====
-- Two grades of a curriculum, put in the other order.
use edtech_lms_api.Prelude.{
  ℕ, ◌≤◌, ◌<◌, String, ◌≡◌, refl, inl, true, false, none, List, [], ◌∷◌, length, ◌==◌, contains,
}
use edtech_lms_api.Tests.{exact}
use edtech_lms_api.Tests.Lessons.{content}
use edtech_lms_api.Content.{grade}
use edtech_lms_api.Reorder.{
  ReorderSpec, Child, count_id, live_children, write_orders, reorder_children,
}
use edtech_lms_api.Reorder.Accepted.{reorder_children-bounds}

abbrev grades : ReorderSpec
grades = record { kind = grade; body_field = "gradeids"; soft_delete = true }

abbrev child_at : String → ℕ → Child
child_at id order = record { id = id; parentid = "c1"; order = order; isdeleted = false }

abbrev children : List Child
children = child_at "g1" 1 ∷ child_at "g2" 2 ∷ []

abbrev reordered : List Child
reordered = child_at "g1" 2 ∷ child_at "g2" 1 ∷ []

abbrev other_order : List String
other_order = "g2" ∷ "g1" ∷ []

abbrev first_child : Child
first_child = child_at "g1" 2

reorder_children-bounds_example :
    (contains other_order first_child.id ≡ true)
    × (0 < first_child.order)
    × (first_child.order ≤ length other_order)
unfolding reorder_children live_children count_id write_orders contains ◌==◌
reorder_children-bounds_example =
    reorder_children-bounds exact content none grades "c1" other_order children reordered
      first_child refl (inl refl)
