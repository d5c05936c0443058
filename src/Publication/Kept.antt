-- ===== src/Publication/Kept.antt =====
-- src/business/curriculum-publication.ts: a publish keeps the stored publications sound, and what
-- it leaves of a curriculum's history.
use edtech_lms_api.Prelude.{
  ℕ, String, ◌≡◌, refl, sym, ap, ◌∙◌, subst, inl, inr, Bool, true, false, not, some, List, [], ◌∷◌,
  map, arith, if◌then◌else◌, Bool-cases, is_some, find, any, head?, All, IsIn, IsIn-filter,
  find-IsIn, find_sound, All-of_IsIn, IsIn-map, any-IsIn, any-of_IsIn, find-map,
}
use edtech_lms_api.Errors.{ok, throw_if-eq-ok, ok-injective, >>-eq-ok}
use edtech_lms_api.Store.{Collation}
use edtech_lms_api.Session.{same_text}
use edtech_lms_api.Publication.Shelf.{is_published, Publication, Shelf, history}
use edtech_lms_api.Publication.Reading.{Reading, id_of, next_time}
use edtech_lms_api.Publication.Publish.{
  is_live_row, find_curriculum, may_publish, tail_of, is_older, prune_row, published_row,
  publish_writes, publish_commit,
}
use edtech_lms_api.Publication.Order.{IsNewer, IsApart, history-rows, next_time-newer, IsApart-same}
use edtech_lms_api.Publication.Sound.{
  IsLive, IsSound, find_curriculum-same, prune_row-keys, IsPairwise-kept,
}

module _ (c : Collation) where
  open c use {matches}

  tail_of-IsIn : (ps : List Publication) (q : Publication) → IsIn q (tail_of c ps) → IsIn q ps
  tail_of-IsIn [] q m = absurd m
  tail_of-IsIn (p ∷ ps) q m = inr m

  -- A publish that commits has found the curriculum live, its latest publication the one that it
  -- had noted, and its own id free.
  pub publish_commit-checks :
      (id user : String) (now : ℕ) (uuid : String) (reading : Reading) (shelf : Shelf)
      (answer : String × ℕ × Shelf)
      → publish_commit c id user now uuid reading shelf ≡ ok answer
      → (is_live_row c (find_curriculum c id shelf) ≡ true)
        × (same_text (id_of (head? (history c id shelf))) reading.noted ≡ true)
        × (any (λ p. matches p.publicationid uuid) shelf.publications ≡ false)
        × (answer ≡ (
          uuid,
          next_time now (head? (history c id shelf)),
          publish_writes c user now uuid reading (history c id shelf) shelf,
        ))
  unfolding publish_commit may_publish
  publish_commit-checks id user now uuid reading shelf answer h =
      let (passed, rest) = >>-eq-ok (may_publish c id reading uuid shelf) _ h in
      let (found, more) = >>-eq-ok _ _ passed in
      let (noted, free) = >>-eq-ok _ _ more in
      (
        not-false (is_live_row c (find_curriculum c id shelf)) (throw_if-eq-ok _ _ found),
        not-false _ (throw_if-eq-ok _ _ noted),
        throw_if-eq-ok _ _ free,
        sym (ok-injective rest),
      )
    where
      not-false : (b : Bool) → not b ≡ false → b ≡ true
      not-false b h = ground arith

  module _ (id user : String) (now : ℕ) (uuid : String) (reading : Reading) (shelf : Shelf)
      (sound : IsSound c shelf) (ours : matches reading.payload.curriculumid id ≡ true)
      (free : any (λ p. matches p.publicationid uuid) shelf.publications ≡ false) where
    abbrev past : List Publication
    past = history c id shelf

    abbrev new_row : Publication
    new_row = published_row c user now uuid reading past

    uuid-apart :
        (p : Publication) → IsIn p shelf.publications → matches p.publicationid uuid ≡ false
    uuid-apart p m = elim (Bool-cases (matches p.publicationid uuid)) [
      | inl e ↦ absurd (
          ground
            (arith, free, any-of_IsIn (λ p. matches p.publicationid uuid) p shelf.publications m e))
      | inr e ↦ e
    ]

    new_row-IsApart : All (IsApart c new_row) shelf.publications
    new_row-IsApart = All-of_IsIn (IsApart c new_row) shelf.publications (λ p m.
        elim (Bool-cases (matches uuid p.publicationid)) [
          | inl e ↦ absurd (ground (arith, uuid-apart p m, c.matches_sym uuid p.publicationid e))
          | inr e ↦ e
        ])

    new_row-IsNewer : All (IsNewer c new_row) shelf.publications
    new_row-IsNewer = All-of_IsIn (IsNewer c new_row) shelf.publications (λ p m same.
        next_time-newer c now id shelf p sound.newer m (
          c.matches_trans p.curriculumid reading.payload.curriculumid id
            (c.matches_sym reading.payload.curriculumid p.curriculumid same) ours))

    -- An older publication is one of the curriculum's own.
    older-ours :
        (p : Publication)
        → IsIn p shelf.publications
        → is_older c (tail_of c past) p ≡ true
        → matches p.curriculumid id ≡ true
    older-ours p m h =
        let (q, i, same) =
          any-IsIn (λ h. matches p.publicationid h.publicationid) (tail_of c past) h in
        let (stored, mine) =
          IsIn-filter (λ p. matches p.curriculumid id) q shelf.publications
            (subst (IsIn q) (history-rows c id shelf sound.newer) (tail_of-IsIn past q i)) in
        ap (λ x. matches x.curriculumid id)
          (IsApart-same c p q shelf.publications sound.apart m stored same)
        ∙ mine

    new_row-kept : is_older c (tail_of c past) new_row ≡ false
    new_row-kept = elim (Bool-cases (is_older c (tail_of c past) new_row)) [
      | inl e ↦
          let (q, i, same) = any-IsIn (λ h. matches uuid h.publicationid) (tail_of c past) e in
          let (stored, mine) =
            IsIn-filter (λ p. matches p.curriculumid id) q shelf.publications
              (subst (IsIn q) (history-rows c id shelf sound.newer) (tail_of-IsIn past q i)) in
          absurd (ground (arith, uuid-apart q stored, c.matches_sym uuid q.publicationid same))
      | inr e ↦ e
    ]

    abbrev prune : Publication → Publication
    prune = prune_row c (tail_of c past)

    pub prune-new_row : prune new_row ≡ new_row
    prune-new_row = rw (new_row-kept) refl

    new_row-front :
        (f : Publication → Publication)
        → f new_row ≡ new_row
        → (p : Publication) (other : String) → matches new_row.curriculumid other ≡ true
        → find (λ p. matches p.curriculumid other) (map f (new_row ∷ shelf.publications)) ≡ some p
        → p ≡ new_row
    new_row-front f kept p other mine found = some-injective (
        sym found
        ∙ ap
            (λ b.
              if b
              then some (f new_row)
              else find (λ p. matches p.curriculumid other) (map f shelf.publications))
            (ap (λ x. matches x.curriculumid other) kept ∙ mine)
        ∙ ap some kept)
      where
        some-injective : {a b : Publication} → some a ≡ some b → a ≡ b
        some-injective h = cc

    prune-payload :
        (p : Publication) → is_older c (tail_of c past) p ≡ false → (prune p).payload ≡ p.payload
    prune-payload p h = rw (h) refl

    new_row-whole :
        (other : String) (p : Publication)
        → find (λ p. matches p.curriculumid other) (map prune (new_row ∷ shelf.publications))
          ≡ some p
        → is_some p.payload ≡ true
    new_row-whole other p found = elim (Bool-cases (matches reading.payload.curriculumid other)) [
      | inl e ↦ ap (λ x. is_some x.payload) (new_row-front prune prune-new_row p other e found)
      | inr e ↦
          let (q, there, same) =
            find-map (λ p. matches p.curriculumid other) prune (new_row ∷ shelf.publications) p
              (λ x. ap (λ y. matches y other) (prune_row-keys c (tail_of c past) x).1) found in
          let stored : find (λ p. matches p.curriculumid other) shelf.publications ≡ some q =
            sym (
              ap
                (λ b.
                  if b
                  then some new_row
                  else find (λ p. matches p.curriculumid other) shelf.publications)
                e)
            ∙ there in
          elim (Bool-cases (is_older c (tail_of c past) q)) [
            | inl older ↦
                let at_id =
                  older-ours q
                    (find-IsIn (λ p. matches p.curriculumid other) shelf.publications stored)
                    older in
                let at_other =
                  find_sound (λ p. matches p.curriculumid other) shelf.publications stored in
                absurd (
                  ground (
                    arith,
                    e,
                    c.matches_trans reading.payload.curriculumid q.curriculumid other
                        (c.matches_trans reading.payload.curriculumid id q.curriculumid ours
                          (c.matches_sym q.curriculumid id at_id))
                        at_other,
                  ))
            | inr kept ↦
                ap (λ x. is_some x.payload) (sym same)
                ∙ ap is_some (prune-payload q kept)
                ∙ sound.whole other q stored
          ]
    ]

    -- What a publish writes keeps the shelf sound.
    pub publish_writes-IsSound :
        is_live_row c (find_curriculum c id shelf) ≡ true
        → IsSound c (publish_writes c user now uuid reading past shelf)
    unfolding publish_writes
    publish_writes-IsSound there =
        let (apart, newer) =
          IsPairwise-kept c prune (new_row ∷ shelf.publications)
            (λ p. (prune_row-keys c (tail_of c past) p).0)
            (λ p. (prune_row-keys c (tail_of c past) p).1)
            (λ p. (prune_row-keys c (tail_of c past) p).2) (new_row-IsApart, sound.apart)
            (new_row-IsNewer, sound.newer) in
        record {
          apart = apart;
          newer = newer;
          whole = new_row-whole;
          live = λ p m published.
              let (q, i, same) = IsIn-map prune p (new_row ∷ shelf.publications) m in
              ap (λ x. is_live_row c (find_curriculum c x.curriculumid shelf)) (sym same)
              ∙ ap (λ x. is_live_row c (find_curriculum c x shelf))
                  (prune_row-keys c (tail_of c past) q).1
              ∙ live_before q i (
                  ap is_published (sym (prune_row-keys c (tail_of c past) q).3)
                  ∙ ap (λ x. is_published x.status) same
                  ∙ published);
        }
      where
        live_before : (q : Publication) → IsIn q (new_row ∷ shelf.publications) → IsLive c shelf q
        live_before q (inl e) h =
            ap (λ x. is_live_row c (find_curriculum c x.curriculumid shelf)) (sym e)
            ∙ ap (is_live_row c) (find_curriculum-same c reading.payload.curriculumid id shelf ours)
            ∙ there
        live_before q (inr m) h = sound.live q m h
