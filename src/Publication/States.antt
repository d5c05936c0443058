-- ===== src/Publication/States.antt =====
-- src/business/curriculum-publication.ts: the state that is shown of a curriculum.
use edtech_lms_api.Prelude.{
  ℕ, String, ◌≡◌, refl, sym, ap, ◌∙◌, Bool, true, false, ◌||◌, Option, some, List, [], ◌∷◌, arith,
  filter, find, any, head?, ◌==◌, eq_of,
}
use edtech_lms_api.Errors.{ok}
use edtech_lms_api.Store.{Collation}
use edtech_lms_api.Publication.Shelf.{
  published, Publication, Shelf, newest_first, state, state_of, history, latest_of,
  publication_states,
}
use edtech_lms_api.Publication.Reading.{Reading, id_of, next_time}
use edtech_lms_api.Publication.Publish.{is_live_row, find_curriculum, published_row, publish_commit}
use edtech_lms_api.Publication.Sound.{IsSound}
use edtech_lms_api.Publication.Kept.{publish_commit-checks}
use edtech_lms_api.Content.{Content}
use edtech_lms_api.Claims.{OrgContext}
use edtech_lms_api.Export.Keys.{Row}
use edtech_lms_api.Publication.Payload.{Tables}
use edtech_lms_api.Publication.Turns.{publish_commit-live}
use edtech_lms_api.Publication.Reads.{IsRead, publish_read-parts}
use edtech_lms_api.Publication.Reach.{Language}
use edtech_lms_api.Publication.Retention.{retained, publish_commit-history}
use edtech_lms_api.Publication.Sets.{payload_or_none}

or_false : (b : Bool) → (b || false) ≡ b
or_false true = refl
or_false false = refl

module _ (c : Collation) where
  open c use {matches}

  -- The latest publication of one curriculum is looked up in its history.
  latest_of-history :
      (id : String) (shelf : Shelf)
      → latest_of c (id ∷ []) shelf id ≡ find (λ p. p.curriculumid == id) (history c id shelf)
  unfolding latest_of history
  latest_of-history id shelf = λ i.
      find (λ p. p.curriculumid == id)
        (newest_first (filter (λ p. or_false (matches p.curriculumid id) i) shelf.publications))

  -- After a publish that commits on a sound shelf a payload whose curriculum id is spelled as the
  -- id given, the curriculum's state is read as `published`, with the id and the time that the
  -- publish answered, and the payload of its latest publication is the one that the publish built.
  pub publish_commit-state :
      (id user : String) (now : ℕ) (uuid : String) (reading : Reading) (shelf after : Shelf)
      (key : String) (time : ℕ)
      → IsSound c shelf
      → reading.payload.curriculumid ≡ id
      → publish_commit c id user now uuid reading shelf ≡ ok (key, time, after)
      → (publication_states c (id ∷ []) after ≡ (id, state key (some time) published) ∷ [])
        × (payload_or_none (latest_of c (id ∷ []) after id) ≡ some reading.payload)
  unfolding publication_states
  publish_commit-state id user now uuid reading shelf after key time sound spelled h =
      let (there, noted, free, same) =
        publish_commit-checks c id user now uuid reading shelf (key, time, after) h in
      let ours = ap (λ x. matches x id) spelled ∙ c.matches_refl id in
      let new = published_row c user now uuid reading (history c id shelf) in
      let latest : latest_of c (id ∷ []) after id ≡ some new =
        latest_of-history id after
        ∙ ap (find (λ p. p.curriculumid == id))
            (publish_commit-history c id user now uuid reading shelf after key time sound ours h)
        ∙ front_found id new (retained (history c id shelf))
            (eq_of reading.payload.curriculumid id spelled) in
      (
        (λ i. (id, state_of (latest i)) ∷ []) ∙ (λ i.
            (
              id,
              state (sym (ap (λ (x : String × ℕ × Shelf). x.0) same) i)
                  (some (sym (ap (λ (x : String × ℕ × Shelf). x.1) same) i)) published,
            )
            ∷ []),
        ap payload_or_none latest,
      )
    where
      front_found :
          (id : String) (p : Publication) (ps : List Publication)
          → (p.curriculumid == id) ≡ true
          → find (λ p. p.curriculumid == id) (p ∷ ps) ≡ some p
      front_found id p ps h = ground arith

  find-head :
      (q : Publication → Bool) (ps : List Publication)
      → ((p : Publication) → head? ps ≡ some p → q p ≡ true)
      → find q ps ≡ head? ps
  find-head q [] h = refl
  find-head q (p ∷ ps) h = ground (arith, h p refl)

  -- A publish that commits on the shelf that it has read, of a curriculum that is there and not
  -- deleted, whose latest publication (if it has one) spells its id as the id given, and under an
  -- id that no publication has, always commits, whatever the clock says.
  pub publish_commit_undisturbed :
      (l : Language) (t : Content) (org : Option OrgContext) (id : String) (content : Tables)
      (subject_rows : List Row) (user : String) (now : ℕ) (uuid : String) (reading : Reading)
      (shelf : Shelf)
      → IsRead c l.lower l.parse l.text l.sha256 l.payload_hash t org id content subject_rows shelf
          reading
      → is_live_row c (find_curriculum c id shelf) ≡ true
      → ((p : Publication) → head? (history c id shelf) ≡ some p → (p.curriculumid == id) ≡ true)
      → any (λ p. matches p.publicationid uuid) shelf.publications ≡ false
      → (after : Shelf) × (publish_commit c id user now uuid reading shelf
          ≡ ok (uuid, next_time now (head? (history c id shelf)), after))
  publish_commit_undisturbed l t org id content subject_rows user now uuid reading shelf was_read
        there spelled free =
      publish_commit-live c id user now uuid reading shelf there
        ((publish_read-parts c l.lower l.parse l.text l.sha256 l.payload_hash t org id content
            subject_rows shelf reading was_read).0
          ∙ ap id_of (latest_of-history id shelf)
          ∙ ap id_of (find-head (λ p. p.curriculumid == id) (history c id shelf) spelled))
        free
