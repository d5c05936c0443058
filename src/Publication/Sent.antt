-- ===== src/Publication/Sent.antt =====
-- src/business/published-content.ts: the order in which publications are sent loses none of them.
use edtech_lms_api.Prelude.{
  String, sym, subst, inl, inr, List, [], ◌∷◌, if◌then◌else◌, Bool-cases, IsIn,
}
use edtech_lms_api.Publication.Merge.{PublishedSet, sent_before, insert_sent, sent_order}
use Prim.Native.Nat.{Ordering}

module _ (lower : String → String) (locale : String → String → Ordering) where
  IsIn-insert_sent :
      (s t : PublishedSet) (sets : List PublishedSet)
      → IsIn t (insert_sent lower locale s sets)
      → IsIn t (s ∷ sets)
  IsIn-insert_sent s t [] m = m
  IsIn-insert_sent s t (x ∷ sets) m = elim (Bool-cases (sent_before lower locale s x)) [
    | inl e ↦
        subst (λ b. IsIn t (if b then s ∷ x ∷ sets else x ∷ insert_sent lower locale s sets)) e m
    | inr e ↦
        elim (subst (λ b. IsIn t (if b then s ∷ x ∷ sets else x ∷ insert_sent lower locale s sets))
          e m) [
            | inl same ↦ inr (inl same)
            | inr later ↦ elim (IsIn-insert_sent s t sets later) [
              | inl same ↦ inl same
              | inr there ↦ inr (inr there)
            ]
          ]
  ]

  insert_sent-IsIn :
      (s t : PublishedSet) (sets : List PublishedSet)
      → IsIn t (s ∷ sets)
      → IsIn t (insert_sent lower locale s sets)
  insert_sent-IsIn s t [] m = m
  insert_sent-IsIn s t (x ∷ sets) m = elim (Bool-cases (sent_before lower locale s x)) [
    | inl e ↦
        subst (λ b. IsIn t (if b then s ∷ x ∷ sets else x ∷ insert_sent lower locale s sets))
          (sym e) m
    | inr e ↦
        subst (λ b. IsIn t (if b then s ∷ x ∷ sets else x ∷ insert_sent lower locale s sets))
          (sym e)
          (elim m [
            | inl same ↦ inr (insert_sent-IsIn s t sets (inl same))
            | inr (inl here) ↦ inl here
            | inr (inr later) ↦ inr (insert_sent-IsIn s t sets (inr later))
          ])
  ]

  pub IsIn-sent_order :
      (s : PublishedSet) (sets : List PublishedSet)
      → IsIn s (sent_order lower locale sets)
      → IsIn s sets
  unfolding sent_order
  IsIn-sent_order s [] m = m
  IsIn-sent_order s (x ∷ sets) m = elim (IsIn-insert_sent x s (sent_order lower locale sets) m) [
    | inl same ↦ inl same
    | inr later ↦ inr (IsIn-sent_order s sets later)
  ]

  pub sent_order-IsIn :
      (s : PublishedSet) (sets : List PublishedSet)
      → IsIn s sets
      → IsIn s (sent_order lower locale sets)
  unfolding sent_order
  sent_order-IsIn s [] m = m
  sent_order-IsIn s (x ∷ sets) (inl same) =
      insert_sent-IsIn x s (sent_order lower locale sets) (inl same)
  sent_order-IsIn s (x ∷ sets) (inr m) =
      insert_sent-IsIn x s (sent_order lower locale sets) (inr (sent_order-IsIn s sets m))
