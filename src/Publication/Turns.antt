-- ===== src/Publication/Turns.antt =====
-- src/business/curriculum-publication.ts: publishes of one curriculum that take turns, and a retire.
use edtech_lms_api.Prelude.{
  ℕ, String, ◌≡◌, refl, sym, ap, ◌∙◌, inl, inr, true, false, Option, none, some, List, [], ◌∷◌,
  arith, Bool-cases, Option-cases, filter, any, head?, IsIn, IsIn-filter, ◌==◌, eq_true, eq_self,
  any-of_IsIn,
}
use edtech_lms_api.Errors.{err, ok}
use edtech_lms_api.Store.{Collation}
use edtech_lms_api.Session.{same_text}
use edtech_lms_api.Publication.Shelf.{Publication, Shelf, history}
use edtech_lms_api.Publication.Reading.{published_meanwhile, Reading, id_of, next_time}
use edtech_lms_api.Publication.Publish.{
  is_live_row, find_curriculum, may_publish, publish_writes, publish_commit,
}
use edtech_lms_api.Publication.Order.{history-rows}
use edtech_lms_api.Publication.Sound.{IsSound}
use edtech_lms_api.Publication.Kept.{publish_commit-checks}
use edtech_lms_api.Publication.Retention.{publish_commit-history}

pub same_text-eq : (a b : Option String) → same_text a b ≡ true → a ≡ b
same_text-eq none none h = refl
same_text-eq none (some b) h = absurd (ground arith)
same_text-eq (some a) none h = absurd (ground arith)
same_text-eq (some a) (some b) h = ap some (eq_true a b h)

module _ (c : Collation) where
  open c use {matches}

  history-IsIn :
      (id : String) (shelf : Shelf) (p : Publication)
      → IsSound c shelf
      → head? (history c id shelf) ≡ some p
      → IsIn p shelf.publications
  history-IsIn id shelf p sound h =
      (IsIn-filter (λ p. matches p.curriculumid id) p shelf.publications
        (head-IsIn (filter (λ p. matches p.curriculumid id) shelf.publications)
          (ap head? (sym (history-rows c id shelf sound.newer)) ∙ h))).0
    where
      head-IsIn : (ps : List Publication) → head? ps ≡ some p → IsIn p ps
      head-IsIn [] h = absurd (ground arith)
      head-IsIn (q ∷ ps) h = inl (some-injective h)
        where
          some-injective : {a b : Publication} → some a ≡ some b → a ≡ b
          some-injective h = cc

  -- No publication has the new one's id.
  head-not_uuid :
      (id uuid : String) (shelf : Shelf)
      → IsSound c shelf
      → any (λ p. matches p.publicationid uuid) shelf.publications ≡ false
      → same_text (some uuid) (id_of (head? (history c id shelf))) ≡ false
  head-not_uuid id uuid shelf sound free = elim (Option-cases (head? (history c id shelf))) [
    | inl e ↦ rw (e) refl
    | inr (p, e) ↦ rw (e) (elim (Bool-cases (uuid == p.publicationid)) [
      | inl same ↦ absurd (
          ground (
            arith,
            free,
            any-of_IsIn (λ p. matches p.publicationid uuid) p shelf.publications
                (history-IsIn id shelf p sound e)
                (ap (matches p.publicationid) (eq_true uuid p.publicationid same)
                  ∙ c.matches_refl p.publicationid),
          ))
      | inr other ↦ other
    ])
  ]

  may_publish-refused :
      (id : String) (reading : Reading) (uuid : String) (shelf : Shelf)
      → is_live_row c (find_curriculum c id shelf) ≡ true
      → same_text (id_of (head? (history c id shelf))) reading.noted ≡ false
      → may_publish c id reading uuid shelf ≡ err published_meanwhile
  unfolding may_publish
  may_publish-refused id reading uuid shelf there stale = ground arith

  pub publish_commit-refused :
      (id user : String) (now : ℕ) (uuid : String) (reading : Reading) (shelf : Shelf)
      → is_live_row c (find_curriculum c id shelf) ≡ true
      → same_text (id_of (head? (history c id shelf))) reading.noted ≡ false
      → publish_commit c id user now uuid reading shelf ≡ err published_meanwhile
  unfolding publish_commit
  publish_commit-refused id user now uuid reading shelf there stale =
      rw (may_publish-refused id reading uuid shelf there stale) refl

  -- Of two publishes of a curriculum that noted the same latest publication, where the first one
  -- commits on a sound shelf a payload of that curriculum, the second one, whoever makes it and
  -- whatever else it has read, is refused with the 409 and writes nothing.
  pub publish_commit-second :
      (id user other_user : String) (now later : ℕ) (uuid other_uuid : String)
      (reading other_reading : Reading) (shelf after : Shelf) (key : String) (time : ℕ)
      → IsSound c shelf
      → matches reading.payload.curriculumid id ≡ true
      → other_reading.noted ≡ reading.noted
      → publish_commit c id user now uuid reading shelf ≡ ok (key, time, after)
      → publish_commit c id other_user later other_uuid other_reading after
        ≡ err published_meanwhile
  unfolding publish_writes
  publish_commit-second id user other_user now later uuid other_uuid reading other shelf after key
        time sound ours noted h =
      let (there, latest, free, same) =
        publish_commit-checks c id user now uuid reading shelf (key, time, after) h in
      let written = ap (λ x. x.2) same in
      let latest_noted =
        same_text-eq (id_of (head? (history c id shelf))) reading.noted latest ∙ sym noted in
      publish_commit-refused id other_user later other_uuid other after
        (ap (λ s. is_live_row c (find_curriculum c id s)) written ∙ there)
        (ap (λ ps. same_text (id_of (head? ps)) other.noted)
            (publish_commit-history c id user now uuid reading shelf after key time sound ours h)
          ∙ ap (same_text (some uuid)) (sym latest_noted)
          ∙ head-not_uuid id uuid shelf sound free)

  -- A curriculum whose latest publication is the one noted, which is there and not deleted, is
  -- published under any id that is free.
  pub publish_commit-live :
      (id user : String) (now : ℕ) (uuid : String) (reading : Reading) (shelf : Shelf)
      → is_live_row c (find_curriculum c id shelf) ≡ true
      → reading.noted ≡ id_of (head? (history c id shelf))
      → any (λ p. matches p.publicationid uuid) shelf.publications ≡ false
      → (after : Shelf) × (publish_commit c id user now uuid reading shelf
          ≡ ok (uuid, next_time now (head? (history c id shelf)), after))
  unfolding publish_commit may_publish
  publish_commit-live id user now uuid reading shelf there noted free = (
    publish_writes c user now uuid reading (history c id shelf) shelf,
    ground (arith, same_text-refl (id_of (head? (history c id shelf))), noted),
  )
    where
      same_text-refl : (a : Option String) → same_text a a ≡ true
      same_text-refl none = refl
      same_text-refl (some a) = eq_self a
