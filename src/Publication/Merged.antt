-- ===== src/Publication/Merged.antt =====
-- src/business/published-content.ts: what the merge of the published copies holds.
use edtech_lms_api.Prelude.{
  ℕ, String, ◌≡◌, refl, sym, ap, ◌∙◌, ◌⊎◌, inl, inr, true, false, none, some, List, [], ◌∷◌, arith,
  if◌then◌else◌, Bool-cases, IsIn, codes,
}
use edtech_lms_api.Export.Keys.{TableKey}
use edtech_lms_api.Publication.Merge.{
  PublishedSet, codes_before, text_before, is_older_set, newer_set, holds, winner_from, winner,
}

codes_before_trans :
    (xs bs cs : List ℕ)
    → codes_before xs bs ≡ true
    → codes_before bs cs ≡ true
    → codes_before xs cs ≡ true
codes_before_trans xs [] cs h k = absurd (ground arith)
codes_before_trans xs (b ∷ bs) [] h k = absurd (ground arith)
codes_before_trans [] (b ∷ bs) (d ∷ cs) h k = refl
codes_before_trans (a ∷ xs) (b ∷ bs) (d ∷ cs) h k = ground (arith, codes_before_trans xs bs cs)

is_older_set_trans :
    (a b d : PublishedSet)
    → is_older_set a b ≡ true
    → is_older_set b d ≡ true
    → is_older_set a d ≡ true
unfolding is_older_set text_before
is_older_set_trans a b d h k = ground (
  arith,
  codes_before_trans (codes a.publicationid) (codes b.publicationid) (codes d.publicationid),
)

codes_before_irrefl : (xs : List ℕ) → codes_before xs xs ≡ false
codes_before_irrefl [] = refl
codes_before_irrefl (x ∷ xs) = ground (arith, codes_before_irrefl xs)

is_older_set_irrefl : (s : PublishedSet) → is_older_set s s ≡ false
unfolding is_older_set text_before
is_older_set_irrefl s = ground (arith, codes_before_irrefl (codes s.publicationid))

module _ (lower : String → String) where
  -- The set is one of those that hold the id, and none of those is newer.
  pub record IsNewest (table : TableKey) (id : String) (sets : List PublishedSet) (w : PublishedSet)
      : Type 0 where
    pub one_of : IsIn w sets
    pub holding : holds lower table id w ≡ true
    pub newest :
        (s : PublishedSet) → IsIn s sets → holds lower table id s ≡ true → is_older_set w s ≡ false

  -- What the walk over the sets gives from the set held so far.
  record Walk (table : TableKey) (id : String) (held : PublishedSet) (sets : List PublishedSet)
      : Type 0 where
    w : PublishedSet
    wins : winner_from lower table id (some held) sets ≡ some w
    since :
        (w ≡ held) ⊎ (IsIn w sets × (holds lower table id w ≡ true) × (is_older_set held w ≡ true))
    newest :
        (s : PublishedSet) → IsIn s sets → holds lower table id s ≡ true → is_older_set w s ≡ false

  not_older_than :
      (held w x : PublishedSet)
      → (w ≡ held) ⊎ (is_older_set held w ≡ true)
      → is_older_set held x ≡ false
      → is_older_set w x ≡ false
  not_older_than held w x (inl same) h = ap (λ y. is_older_set y x) same ∙ h
  not_older_than held w x (inr later) h = elim (Bool-cases (is_older_set w x)) [
    | inl e ↦ absurd (ground (arith, h, is_older_set_trans held w x later e))
    | inr e ↦ e
  ]

  since_only :
      (table : TableKey) (id : String) (held w : PublishedSet) (sets : List PublishedSet)
      → (w ≡ held) ⊎ (IsIn w sets × (holds lower table id w ≡ true) × (is_older_set held w ≡ true))
      → (w ≡ held) ⊎ (is_older_set held w ≡ true)
  since_only table id held w sets (inl same) = inl same
  since_only table id held w sets (inr (m, h, later)) = inr later

  walk :
      (table : TableKey) (id : String) (held : PublishedSet) (sets : List PublishedSet)
      → Walk table id held sets
  walk table id held [] = record {
    w = held;
    wins = refl;
    since = inl refl;
    newest = λ s m h. absurd m;
  }
  walk table id held (x ∷ sets) = elim (Bool-cases (holds lower table id x)) [
    | inr e ↦
        let r = walk table id held sets in
        record {
          w = r.w;
          wins =
              ap
                (λ b.
                  winner_from lower table id
                    (if b then some (newer_set (some held) x) else some held) sets)
                e
              ∙ r.wins;
          since = elim r.since [ inl same ↦ inl same | inr (m, h, later) ↦ inr (inr m, h, later) ];
          newest = λ s m h. elim m [
            | inl same ↦ absurd (ground (arith, e, ap (holds lower table id) same ∙ h))
            | inr later ↦ r.newest s later h
          ];
        }
    | inl e ↦ elim (Bool-cases (is_older_set held x)) [
      | inl f ↦
          let r = walk table id x sets in
          record {
            w = r.w;
            wins =
                ap
                  (λ b.
                    winner_from lower table id
                      (if b then some (newer_set (some held) x) else some held) sets)
                  e
                ∙ ap (λ b. winner_from lower table id (some (if b then x else held)) sets) f
                ∙ r.wins;
            since = elim r.since [
              | inl same ↦ inr (
                inl (sym same),
                ap (holds lower table id) same ∙ e,
                ap (is_older_set held) same ∙ f,
              )
              | inr (m, h, later) ↦ inr (inr m, h, is_older_set_trans held x r.w f later)
            ];
            newest = λ s m h. elim m [
              | inl same ↦
                  ap (is_older_set r.w) (sym same)
                  ∙ not_older_than x r.w x (since_only table id x r.w sets r.since)
                      (is_older_set_irrefl x)
              | inr later ↦ r.newest s later h
            ];
          }
      | inr f ↦
          let r = walk table id held sets in
          record {
            w = r.w;
            wins =
                ap
                  (λ b.
                    winner_from lower table id
                      (if b then some (newer_set (some held) x) else some held) sets)
                  e
                ∙ ap (λ b. winner_from lower table id (some (if b then x else held)) sets) f
                ∙ r.wins;
            since = elim r.since [
              | inl same ↦ inl same
              | inr (m, h, later) ↦ inr (inr m, h, later)
            ];
            newest = λ s m h. elim m [
              | inl same ↦
                  ap (is_older_set r.w) (sym same)
                  ∙ not_older_than held r.w x (since_only table id held r.w sets r.since) f
              | inr later ↦ r.newest s later h
            ];
          }
    ]
  ]

  -- An id that one of the sets holds is won by the newest of those that hold it.
  pub winner-IsNewest :
      (table : TableKey) (id : String) (sets : List PublishedSet) (s : PublishedSet)
      → IsIn s sets
      → holds lower table id s ≡ true
      → (w : PublishedSet) × (winner lower table id sets ≡ some w) × IsNewest table id sets w
  unfolding winner
  winner-IsNewest table id [] s m h = absurd m
  winner-IsNewest table id (x ∷ sets) s m h = elim (Bool-cases (holds lower table id x)) [
    | inl e ↦
        let r = walk table id x sets in
        (
          r.w,
          ap (λ b. winner_from lower table id (if b then some x else none) sets) e ∙ r.wins,
          record {
            one_of = elim r.since [ inl same ↦ inl (sym same) | inr (i, there, later) ↦ inr i ];
            holding = elim r.since [
              | inl same ↦ ap (holds lower table id) same ∙ e
              | inr (i, there, later) ↦ there
            ];
            newest = λ y i there. elim i [
              | inl same ↦
                  ap (is_older_set r.w) (sym same)
                  ∙ not_older_than x r.w x (since_only table id x r.w sets r.since)
                      (is_older_set_irrefl x)
              | inr later ↦ r.newest y later there
            ];
          },
        )
    | inr e ↦ elim m [
      | inl same ↦ absurd (ground (arith, e, ap (holds lower table id) same ∙ h))
      | inr later ↦
          let (w, wins, best) = winner-IsNewest table id sets s later h in
          (
            w,
            ap (λ b. winner_from lower table id (if b then some x else none) sets) e ∙ wins,
            record {
              one_of = inr best.one_of;
              holding = best.holding;
              newest = λ y i there. elim i [
                | inl same ↦ absurd (ground (arith, e, ap (holds lower table id) same ∙ there))
                | inr below ↦ best.newest y below there
              ];
            },
          )
    ]
  ]
