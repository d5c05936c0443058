-- ===== src/Reorder/Laws.antt =====
-- src/business/reorder-children.ts: what an accepted list does to the children.
use edtech_lms_api.Prelude.{
  ℕ, suc, ◌+◌, ◌≤◌, ◌<◌, String, ◌≡◌, refl, sym, ap, ◌∙◌, inl, inr, true, ◌&&◌, List, [], ◌∷◌, map,
  arith, Bool-cases, length, ◌==◌, eq_true, contains,
}
use edtech_lms_api.Store.{Collation}
use edtech_lms_api.Reorder.{Child, set_order, write_orders}

module _ (c : Collation) where
  open c use {matches}

  -- The writes that one row gets.
  abbrev pub order_row : String → ℕ → List String → Child → Child
  order_row parentid index [] row = row
  order_row parentid index (id ∷ ids) row =
      order_row parentid (suc index) ids (set_order c parentid id (suc index) row)

  map-order_row :
      (f g : Child → Child) (rows : List Child) → map g (map f rows) ≡ map (λ row. g (f row)) rows
  map-order_row f g [] = refl
  map-order_row f g (row ∷ rows) = λ i. g (f row) ∷ map-order_row f g rows i

  pub write_orders-map :
      (parentid : String) (index : ℕ) (ids : List String) (rows : List Child)
      → write_orders c parentid index ids rows ≡ map (order_row parentid index ids) rows
  unfolding write_orders
  write_orders-map parentid index [] rows = sym (map_same rows)
    where
      map_same : (rows : List Child) → map (λ row. row) rows ≡ rows
      map_same [] = refl
      map_same (row ∷ rows) = λ i. row ∷ map_same rows i
  write_orders-map parentid index (id ∷ ids) rows =
      write_orders-map parentid (suc index) ids (map (set_order c parentid id (suc index)) rows)
      ∙ map-order_row (set_order c parentid id (suc index)) (order_row parentid (suc index) ids)
          rows

  abbrev IsBetween : ℕ → ℕ → ℕ → Type 0
  IsBetween low high n = (low < n) × (n ≤ high)

  -- A row that stands in range stays in range.
  order_row-kept :
      (parentid : String) (index : ℕ) (ids : List String) (low high : ℕ) (row : Child)
      → low ≤ index
      → index + length ids ≤ high
      → IsBetween low high row.order
      → IsBetween low high (order_row parentid index ids row).order
  order_row-kept parentid index [] low high row l h b = b
  order_row-kept parentid index (id ∷ ids) low high row l h b =
      order_row-kept parentid (suc index) ids low high (set_order c parentid id (suc index) row)
        (omega arith) (omega arith)
        (elim (Bool-cases (matches row.id id && matches row.parentid parentid)) [
          | inl e ↦ rw (e) (omega arith, omega arith)
          | inr e ↦ rw (e) b
        ])

  pub set_order-id :
      (parentid id : String) (n : ℕ) (row : Child)
      → ((set_order c parentid id n row).id ≡ row.id)
        × ((set_order c parentid id n row).parentid ≡ row.parentid)
  set_order-id parentid id n row =
      elim (Bool-cases (matches row.id id && matches row.parentid parentid)) [
        | inl e ↦ rw (e) (refl, refl)
        | inr e ↦ rw (e) (refl, refl)
      ]

  -- A child of the parent whose id is in the list gets an order in range.
  pub order_row-bounds :
      (parentid : String) (index : ℕ) (ids : List String) (low high : ℕ) (row : Child)
      → low ≤ index
      → index + length ids ≤ high
      → matches row.parentid parentid ≡ true
      → contains ids row.id ≡ true
      → IsBetween low high (order_row parentid index ids row).order
  unfolding contains
  order_row-bounds parentid index [] low high row l h p m = absurd (ground arith)
  order_row-bounds parentid index (id ∷ ids) low high row l h p m =
      elim (Bool-cases (id == row.id)) [
        | inl e ↦
            order_row-kept parentid (suc index) ids low high
              (set_order c parentid id (suc index) row) (omega arith) (omega arith)
              (let hit : (matches row.id id && matches row.parentid parentid) ≡ true =
                  ground
                    (arith, p, ap (matches row.id) (eq_true id row.id e) ∙ c.matches_refl row.id) in
                rw (hit) (omega arith, omega arith))
        | inr e ↦
            let (key, up) = set_order-id parentid id (suc index) row in
            order_row-bounds parentid (suc index) ids low high
              (set_order c parentid id (suc index) row) (omega arith) (omega arith)
              (ap (λ x. matches x parentid) up ∙ p) (ap (contains ids) key ∙ ground (arith, e))
      ]
