-- ===== src/Publication/Order.antt =====
-- src/business/curriculum-publication.ts: the order in which a curriculum's publications are read.
use edtech_lms_api.Prelude.{
  ℕ, ◌<◌, String, ◌≡◌, refl, sym, ap, ◌∙◌, subst, inl, inr, true, false, some, List, [], ◌∷◌, arith,
  leb, filter, head?, All, IsIn, IsIn-filter_of, IsPairwise, All-IsIn, All-of_IsIn,
  IsPairwise-filter,
}
use edtech_lms_api.Store.{Collation}
use edtech_lms_api.Publication.Shelf.{Publication, Shelf, insert_newest, newest_first, history}
use edtech_lms_api.Publication.Reading.{next_time}

-- The first publication is the later one.
abbrev pub IsLater : Publication → Publication → Type 0
IsLater p q = q.publishedat < p.publishedat

leb-of_lt : (a b : ℕ) → a < b → leb a b ≡ true
leb-of_lt a b h = ground arith

insert_newest-front :
    (p : Publication) (ps : List Publication) → All (IsLater p) ps → insert_newest p ps ≡ p ∷ ps
insert_newest-front p [] h = refl
insert_newest-front p (q ∷ qs) (h, more) = ground (arith, leb-of_lt q.publishedat p.publishedat h)

-- A list that stands newest first is left as it is.
newest_first-sorted : (ps : List Publication) → IsPairwise IsLater ps → newest_first ps ≡ ps
unfolding newest_first
newest_first-sorted [] h = refl
newest_first-sorted (p ∷ ps) (now, later) =
    ap (insert_newest p) (newest_first-sorted ps later) ∙ insert_newest-front p ps now

next_time-later :
    (now : ℕ) (past : List Publication)
    → IsPairwise IsLater past
    → All (λ q. q.publishedat < next_time now (head? past)) past
next_time-later now [] h = tt
next_time-later now (p ∷ ps) (front, later) =
    let after : p.publishedat < next_time now (some p) = ground arith in
    (
      after,
      All-of_IsIn (λ q. q.publishedat < next_time now (some p)) ps
          (λ q m. omega (arith, All-IsIn (IsLater p) q ps front m, after)),
    )

module _ (c : Collation) where
  open c use {matches}

  -- Of two publications of one curriculum, the first is the later one.
  abbrev pub IsNewer : Publication → Publication → Type 0
  IsNewer p q = matches p.curriculumid q.curriculumid ≡ true → IsLater p q

  -- The two have different primary keys.
  abbrev pub IsApart : Publication → Publication → Type 0
  IsApart p q = matches p.publicationid q.publicationid ≡ false

  of_curriculum-IsLater :
      (id : String) (ps : List Publication)
      → IsPairwise IsNewer ps
      → IsPairwise IsLater (filter (λ p. matches p.curriculumid id) ps)
  of_curriculum-IsLater id ps h =
      IsPairwise-filter IsNewer IsLater (λ p. matches p.curriculumid id) ps
        (λ p q mine yours newer. newer (
          c.matches_trans p.curriculumid id q.curriculumid mine
            (c.matches_sym q.curriculumid id yours)))
        h

  -- The history of a curriculum is its publications as they stand.
  pub history-rows :
      (id : String) (shelf : Shelf)
      → IsPairwise IsNewer shelf.publications
      → history c id shelf ≡ filter (λ p. matches p.curriculumid id) shelf.publications
  unfolding history
  history-rows id shelf h =
      newest_first-sorted (filter (λ p. matches p.curriculumid id) shelf.publications)
        (of_curriculum-IsLater id shelf.publications h)

  -- A new publication's time is later than that of any other one of its curriculum.
  pub next_time-newer :
      (now : ℕ) (id : String) (shelf : Shelf) (q : Publication)
      → IsPairwise IsNewer shelf.publications
      → IsIn q shelf.publications
      → matches q.curriculumid id ≡ true
      → q.publishedat < next_time now (head? (history c id shelf))
  next_time-newer now id shelf q h m same =
      let past = history-rows id shelf h in
      All-IsIn (λ p. p.publishedat < next_time now (head? (history c id shelf))) q
        (history c id shelf)
        (next_time-later now (history c id shelf)
          (subst (IsPairwise IsLater) (sym past) (of_curriculum-IsLater id shelf.publications h)))
        (subst (IsIn q) (sym past)
          (IsIn-filter_of (λ p. matches p.curriculumid id) q shelf.publications m same))

  -- No two publications have one primary key.
  pub IsApart-same :
      (p q : Publication) (ps : List Publication)
      → IsPairwise IsApart ps
      → IsIn p ps
      → IsIn q ps
      → matches p.publicationid q.publicationid ≡ true
      → p ≡ q
  IsApart-same p q [] h m n same = absurd m
  IsApart-same p q (x ∷ xs) (now, later) (inl e) (inl f) same = sym e ∙ f
  IsApart-same p q (x ∷ xs) (now, later) (inl e) (inr n) same =
      let apart = All-IsIn (IsApart x) q xs now n in
      absurd (ground (arith, sym (ap (λ y. matches y.publicationid q.publicationid) e) ∙ apart))
  IsApart-same p q (x ∷ xs) (now, later) (inr m) (inl f) same =
      let apart = All-IsIn (IsApart x) p xs now m in
      let turned = c.matches_sym p.publicationid q.publicationid same in
      absurd
        (ground (arith, sym (ap (λ y. matches y.publicationid p.publicationid) f) ∙ apart, turned))
  IsApart-same p q (x ∷ xs) (now, later) (inr m) (inr n) same = IsApart-same p q xs later m n same
