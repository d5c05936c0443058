-- ===== src/Publication/Latest.antt =====
-- src/business/published-content.ts: the first of each curriculum among publications newest first.
use edtech_lms_api.Prelude.{
  ℕ, ◌≤◌, String, ◌≡◌, sym, ap, ◌∙◌, inl, inr, true, false, List, [], ◌∷◌, arith, leb, Bool-cases,
  filter, All, IsIn, IsIn-filter, IsIn-filter_of, eq_of, contains, IsPairwise, All-IsIn,
  All-of_IsIn,
}
use edtech_lms_api.Store.{Collation}
use edtech_lms_api.Publication.Shelf.{is_published, Publication, Shelf, insert_newest, newest_first}
use edtech_lms_api.Publication.Sets.{first_of_each, latest_published}

-- The second publication is no later than the first.
abbrev pub IsNoOlder : Publication → Publication → Type 0
IsNoOlder p q = q.publishedat ≤ p.publishedat

leb-le : (a b : ℕ) → leb a b ≡ true → a ≤ b
leb-le a b h = ground arith

leb-ge : (a b : ℕ) → leb a b ≡ false → b ≤ a
leb-ge a b h = ground arith

insert_newest-All :
    (P : Publication → Type 0) (p : Publication) (ps : List Publication)
    → P p
    → All P ps
    → All P (insert_newest p ps)
insert_newest-All P p [] now later = (now, tt)
insert_newest-All P p (x ∷ xs) now (here, later) =
    elim (Bool-cases (leb x.publishedat p.publishedat)) [
      | inl e ↦ rw (e) (now, (here, later))
      | inr e ↦ rw (e) (here, insert_newest-All P p xs now later)
    ]

insert_newest-IsPairwise :
    (p : Publication) (ps : List Publication)
    → IsPairwise IsNoOlder ps
    → IsPairwise IsNoOlder (insert_newest p ps)
insert_newest-IsPairwise p [] h = (tt, tt)
insert_newest-IsPairwise p (x ∷ xs) (now, later) =
    elim (Bool-cases (leb x.publishedat p.publishedat)) [
      | inl e ↦
          let first = leb-le x.publishedat p.publishedat e in
          let below : All (IsNoOlder p) xs =
            All-of_IsIn (IsNoOlder p) xs
              (λ q m. omega (arith, All-IsIn (IsNoOlder x) q xs now m, first)) in
          rw (e) ((first, below), (now, later))
      | inr e ↦ rw (e) (
        insert_newest-All (IsNoOlder x) p xs (leb-ge x.publishedat p.publishedat e) now,
        insert_newest-IsPairwise p xs later,
      )
    ]

newest_first-IsPairwise : (ps : List Publication) → IsPairwise IsNoOlder (newest_first ps)
unfolding newest_first
newest_first-IsPairwise [] = tt
newest_first-IsPairwise (p ∷ ps) =
    insert_newest-IsPairwise p (newest_first ps) (newest_first-IsPairwise ps)

IsIn-insert_newest :
    (p q : Publication) (ps : List Publication) → IsIn q (p ∷ ps) → IsIn q (insert_newest p ps)
IsIn-insert_newest p q [] m = m
IsIn-insert_newest p q (x ∷ xs) m = elim (Bool-cases (leb x.publishedat p.publishedat)) [
  | inl e ↦ rw (e) m
  | inr e ↦ rw (e) (elim m [
    | inl same ↦ inr (IsIn-insert_newest p q xs (inl same))
    | inr (inl here) ↦ inl here
    | inr (inr later) ↦ inr (IsIn-insert_newest p q xs (inr later))
  ])
]

IsIn-newest_first : (q : Publication) (ps : List Publication) → IsIn q ps → IsIn q (newest_first ps)
unfolding newest_first
IsIn-newest_first q [] m = m
IsIn-newest_first q (p ∷ ps) (inl same) = IsIn-insert_newest p q (newest_first ps) (inl same)
IsIn-newest_first q (p ∷ ps) (inr later) =
    IsIn-insert_newest p q (newest_first ps) (inr (IsIn-newest_first q ps later))

first_of_each-unseen :
    (seen : List String) (p : Publication) (ps : List Publication)
    → IsIn p (first_of_each seen ps)
    → contains seen p.curriculumid ≡ false
unfolding contains
first_of_each-unseen seen p [] m = absurd m
first_of_each-unseen seen p (x ∷ xs) m = elim (Bool-cases (contains seen x.curriculumid)) [
  | inl e ↦ first_of_each-unseen seen p xs (rw (e) at m)
  | inr e ↦ elim (rw (e) at m) [
    | inl same ↦ ap (λ y. contains seen y.curriculumid) (sym same) ∙ e
    | inr later ↦
        let unseen = first_of_each-unseen (x.curriculumid ∷ seen) p xs later in ground arith
  ]
]

first_of_each-newest :
    (seen : List String) (p q : Publication) (ps : List Publication)
    → IsPairwise IsNoOlder ps
    → IsIn p (first_of_each seen ps)
    → IsIn q ps
    → q.curriculumid ≡ p.curriculumid
    → q.publishedat ≤ p.publishedat
unfolding contains
first_of_each-newest seen p q [] h m i e = absurd m
first_of_each-newest seen p q (x ∷ xs) (now, later) m i e =
    elim (Bool-cases (contains seen x.curriculumid)) [
      | inl s ↦
          let m' = rw (s) at m in
          elim i [
            | inl same ↦
                let unseen = first_of_each-unseen seen p xs m' in
                let its : contains seen x.curriculumid ≡ contains seen p.curriculumid =
                  ap (λ y. contains seen y.curriculumid) same ∙ ap (contains seen) e in
                absurd (ground arith)
            | inr there ↦ first_of_each-newest seen p q xs later m' there e
          ]
      | inr s ↦ elim (rw (s) at m) [
        | inl front ↦ elim i [
          | inl same ↦ omega (arith, ap (λ y. y.publishedat) front, ap (λ y. y.publishedat) same)
          | inr there ↦
              omega (arith, ap (λ y. y.publishedat) front, All-IsIn (IsNoOlder x) q xs now there)
        ]
        | inr after ↦ elim i [
          | inl same ↦
              let unseen = first_of_each-unseen (x.curriculumid ∷ seen) p xs after in
              let its : x.curriculumid ≡ p.curriculumid = ap (λ y. y.curriculumid) same ∙ e in
              absurd (ground (arith, eq_of x.curriculumid p.curriculumid its))
          | inr there ↦ first_of_each-newest (x.curriculumid ∷ seen) p q xs later after there e
        ]
      ]
    ]

-- No stored publication of the same organisation and curriculum is later than the latest one.
pub latest_published-newest :
    (c : Collation) (lower : String → String) (o : String) (shelf : Shelf) (p q : Publication)
    → IsIn p (latest_published c lower o shelf)
    → IsIn q shelf.publications
    → c.matches q.organisationid o ≡ true
    → q.curriculumid ≡ p.curriculumid
    → q.publishedat ≤ p.publishedat
unfolding latest_published
latest_published-newest c lower o shelf p q m i owned e =
    let mine = filter (λ p. c.matches p.organisationid o) shelf.publications in
    first_of_each-newest [] p q (newest_first mine) (newest_first-IsPairwise mine)
      (IsIn-filter (λ p. is_published p.status) p _ m).0
      (IsIn-newest_first q mine
        (IsIn-filter_of (λ p. c.matches p.organisationid o) q shelf.publications i owned))
      e
