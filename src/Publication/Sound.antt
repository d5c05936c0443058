-- ===== src/Publication/Sound.antt =====
-- src/business/curriculum-publication.ts, src/business/publication-withdraw.ts: what holds of the
-- stored publications, and that each call keeps it.
use edtech_lms_api.Prelude.{
  String, ◌≡◌, refl, sym, ap, ◌∙◌, inl, inr, true, some, List, [], ◌∷◌, map, arith, if◌then◌else◌,
  Bool-cases, is_some, find, IsIn, IsPairwise, IsIn-map, find-map, IsPairwise-map,
}
use edtech_lms_api.Store.{Collation}
use edtech_lms_api.Publication.Shelf.{
  withdrawn, is_published, Publication, CurriculumRow, Shelf, is_live_publication, withdraw_row,
  withdraw_publications,
}
use edtech_lms_api.Publication.Publish.{is_live_row, find_curriculum, is_older, prune_row}
use edtech_lms_api.Publication.Order.{IsNewer, IsApart}

module _ (c : Collation) where
  open c use {matches}

  -- A publication that is `published` is of a curriculum that is there and not deleted.
  abbrev pub IsLive : Shelf → Publication → Type 0
  IsLive shelf p =
      is_published p.status ≡ true → is_live_row c (find_curriculum c p.curriculumid shelf) ≡ true

  -- Primary keys differ; a later row of a curriculum has a later time; the latest publication of
  -- each curriculum has its payload; and only a curriculum that is not deleted is published.
  pub record IsSound (shelf : Shelf) : Type 0 where
    pub apart : IsPairwise (IsApart c) shelf.publications
    pub newer : IsPairwise (IsNewer c) shelf.publications
    pub whole :
        (id : String) (p : Publication)
        → find (λ p. matches p.curriculumid id) shelf.publications ≡ some p
        → is_some p.payload ≡ true
    pub live : (p : Publication) → IsIn p shelf.publications → IsLive shelf p

  pub find_curriculum-same :
      (id other : String) (shelf : Shelf)
      → matches id other ≡ true
      → find_curriculum c id shelf ≡ find_curriculum c other shelf
  find_curriculum-same id other shelf same = go shelf.curricula
    where
      go :
          (rows : List CurriculumRow)
          → find (λ row. matches row.curriculumid id) rows
            ≡ find (λ row. matches row.curriculumid other) rows
      go [] = refl
      go (row ∷ rows) = ground (
        arith,
        go rows,
        c.matches_trans row.curriculumid id other,
        c.matches_trans row.curriculumid other id,
        c.matches_sym id other same,
        same,
      )

  -- Withdrawing changes the status of rows, and nothing else of them.
  pub withdraw_row-keys :
      (id : String) (p : Publication)
      → ((withdraw_row c id p).publicationid ≡ p.publicationid)
        × ((withdraw_row c id p).curriculumid ≡ p.curriculumid)
        × ((withdraw_row c id p).publishedat ≡ p.publishedat)
        × ((withdraw_row c id p).payload ≡ p.payload)
  withdraw_row-keys id p = elim (Bool-cases (is_live_publication c id p)) [
    | inl e ↦ rw (e) (refl, refl, refl, refl)
    | inr e ↦ rw (e) (refl, refl, refl, refl)
  ]

  pub prune_row-keys :
      (older : List Publication) (p : Publication)
      → ((prune_row c older p).publicationid ≡ p.publicationid)
        × ((prune_row c older p).curriculumid ≡ p.curriculumid)
        × ((prune_row c older p).publishedat ≡ p.publishedat)
        × ((prune_row c older p).status ≡ p.status)
  prune_row-keys older p = elim (Bool-cases (is_older c older p)) [
    | inl e ↦ rw (e) (refl, refl, refl, refl)
    | inr e ↦ rw (e) (refl, refl, refl, refl)
  ]

  -- A row change that keeps keys and times keeps the rows apart and in order.
  pub IsPairwise-kept :
      (f : Publication → Publication) (ps : List Publication)
      → ((p : Publication) → (f p).publicationid ≡ p.publicationid)
      → ((p : Publication) → (f p).curriculumid ≡ p.curriculumid)
      → ((p : Publication) → (f p).publishedat ≡ p.publishedat)
      → IsPairwise (IsApart c) ps
      → IsPairwise (IsNewer c) ps
      → IsPairwise (IsApart c) (map f ps) × IsPairwise (IsNewer c) (map f ps)
  IsPairwise-kept f ps keys curricula times apart newer = (
    IsPairwise-map (IsApart c) f ps
        (λ p q h.
          ap (λ x. matches x (f q).publicationid) (keys p)
          ∙ ap (matches p.publicationid) (keys q)
          ∙ h)
        apart,
    IsPairwise-map (IsNewer c) f ps
        (λ p q h same.
          let later = h (
            ap (λ x. matches x q.curriculumid) (sym (curricula p))
            ∙ ap (matches (f p).curriculumid) (sym (curricula q))
            ∙ same) in
          omega (arith, later, times p, times q))
        newer,
  )

  -- A withdrawal keeps the shelf sound.
  pub withdraw_publications-IsSound :
      (id : String) (shelf : Shelf) → IsSound shelf → IsSound (withdraw_publications c id shelf).1
  unfolding withdraw_publications
  withdraw_publications-IsSound id shelf sound =
      let (apart, newer) =
        IsPairwise-kept (withdraw_row c id) shelf.publications (λ p. (withdraw_row-keys id p).0)
          (λ p. (withdraw_row-keys id p).1) (λ p. (withdraw_row-keys id p).2) sound.apart
          sound.newer in
      record {
        apart = apart;
        newer = newer;
        whole = λ other p found.
            let (q, before, same) =
              find-map (λ p. matches p.curriculumid other) (withdraw_row c id) shelf.publications p
                (λ x. ap (λ y. matches y other) (withdraw_row-keys id x).1) found in
            ap (λ x. is_some x.payload) (sym same)
            ∙ ap is_some (withdraw_row-keys id q).3
            ∙ sound.whole other q before;
        live = λ p m published.
            let (q, i, same) = IsIn-map (withdraw_row c id) p shelf.publications m in
            ap (λ x. is_live_row c (find_curriculum c x.curriculumid shelf)) (sym same)
            ∙ ap (λ x. is_live_row c (find_curriculum c x shelf)) (withdraw_row-keys id q).1
            ∙ sound.live q i
                (was_published id q (ap (λ x. is_published x.status) same ∙ published));
      }
    where
      was_published :
          (id : String) (q : Publication)
          → is_published (withdraw_row c id q).status ≡ true
          → is_published q.status ≡ true
      was_published id q h = elim (Bool-cases (is_live_publication c id q)) [
        | inl e ↦ absurd (ground (arith, e))
        | inr e ↦
            ap (λ b. is_published (if b then record q { status = withdrawn } else q).status) (sym e)
            ∙ h
      ]
