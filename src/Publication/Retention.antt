-- ===== src/Publication/Retention.antt =====
-- src/business/curriculum-publication.ts: what a publish leaves of each curriculum's history, and
-- the publish that comes second.
use edtech_lms_api.Prelude.{
  ℕ, String, ◌≡◌, refl, sym, ap, ◌∙◌, subst, inl, inr, true, false, none, List, [], ◌∷◌, map, arith,
  if◌then◌else◌, Bool-cases, filter, IsIn, IsPairwise, All-IsIn, any-IsIn, any-of_IsIn, filter-map,
  IsPairwise-filter,
}
use edtech_lms_api.Errors.{ok}
use edtech_lms_api.Store.{Collation}
use edtech_lms_api.Publication.Shelf.{slim_summary, Publication, Shelf, history}
use edtech_lms_api.Publication.Reading.{Reading}
use edtech_lms_api.Publication.Publish.{
  tail_of, is_older, prune_row, published_row, publish_writes, publish_commit,
}
use edtech_lms_api.Publication.Order.{IsApart, history-rows}
use edtech_lms_api.Publication.Sound.{IsSound, prune_row-keys}
use edtech_lms_api.Publication.Kept.{publish_commit-checks, prune-new_row, publish_writes-IsSound}

-- A publication as retention leaves an older one: no payload, no names, no hashes.
abbrev pub slimmed : Publication → Publication
slimmed p = record p { payload = none; summary = slim_summary p.summary }

-- The history that a publish goes on from: the latest publication whole, the older ones slimmed.
abbrev pub retained : List Publication → List Publication
retained [] = []
retained (p ∷ older) = p ∷ map slimmed older

module _ (c : Collation) where
  open c use {matches}

  all_older :
      (older ps : List Publication)
      → ((p : Publication) → IsIn p ps → is_older c older p ≡ true)
      → map (prune_row c older) ps ≡ map slimmed ps
  all_older older [] h = refl
  all_older older (p ∷ ps) h =
      λ i. (if h p (inl refl) i then slimmed p else p) ∷ all_older older ps (λ q m. h q (inr m)) i

  prune-retained :
      (past : List Publication)
      → IsPairwise (IsApart c) past
      → map (prune_row c (tail_of c past)) past ≡ retained past
  prune-retained [] apart = refl
  prune-retained (p ∷ older) (front, later) = λ i.
      (if latest_kept i then slimmed p else p)
      ∷ all_older older older
          (λ q m.
            any-of_IsIn (λ h. matches q.publicationid h.publicationid) q older m
              (c.matches_refl q.publicationid))
          i
    where
      latest_kept : is_older c older p ≡ false
      latest_kept = elim (Bool-cases (is_older c older p)) [
        | inl e ↦
            let (q, m, same) = any-IsIn (λ h. matches p.publicationid h.publicationid) older e in
            absurd (ground (arith, All-IsIn (IsApart c p) q older front m, same))
        | inr e ↦ e
      ]

  -- After a publish that commits, on a sound shelf and of a payload of that curriculum, the
  -- curriculum's history is the new publication in front of the one before it, which stays whole,
  -- and of the older ones without their payloads, names and hashes.
  pub publish_commit-history :
      (id user : String) (now : ℕ) (uuid : String) (reading : Reading) (shelf after : Shelf)
      (key : String) (time : ℕ)
      → IsSound c shelf
      → matches reading.payload.curriculumid id ≡ true
      → publish_commit c id user now uuid reading shelf ≡ ok (key, time, after)
      → history c id after
        ≡ published_row c user now uuid reading (history c id shelf) ∷ retained (history c id shelf)
  unfolding publish_writes
  publish_commit-history id user now uuid reading shelf after key time sound ours h =
      let (there, noted, free, same) =
        publish_commit-checks c id user now uuid reading shelf (key, time, after) h in
      let past = history c id shelf in
      let rows = history-rows c id shelf sound.newer in
      let written : after ≡ publish_writes c user now uuid reading past shelf =
        ap (λ x. x.2) same in
      let sound_after =
        publish_writes-IsSound c id user now uuid reading shelf sound ours free there in
      ap (history c id) written
      ∙ history-rows c id (publish_writes c user now uuid reading past shelf) sound_after.newer
      ∙ filter-map (λ p. matches p.curriculumid id) (prune_row c (tail_of c past))
          (published_row c user now uuid reading past ∷ shelf.publications)
          (λ p. ap (λ x. matches x id) (prune_row-keys c (tail_of c past) p).1)
      ∙ ap (map (prune_row c (tail_of c past))) (front-kept past shelf rows ours)
      ∙ (λ i.
          prune-new_row c id user now uuid reading shelf sound ours free i
          ∷ prune-retained past (past-apart past rows) i)
    where
      front-kept :
          (past : List Publication) (shelf : Shelf)
          → past ≡ filter (λ p. matches p.curriculumid id) shelf.publications
          → matches reading.payload.curriculumid id ≡ true
          → filter
              (λ p. matches p.curriculumid id)
              (published_row c user now uuid reading past ∷ shelf.publications)
            ≡ published_row c user now uuid reading past ∷ past
      front-kept past shelf rows ours =
          ap
            (λ b.
              if b
              then published_row c user now uuid reading past
                ∷ filter (λ p. matches p.curriculumid id) shelf.publications
              else filter (λ p. matches p.curriculumid id) shelf.publications)
            ours
          ∙ ap (λ ps. published_row c user now uuid reading past ∷ ps) (sym rows)

      past-apart :
          (past : List Publication)
          → past ≡ filter (λ p. matches p.curriculumid id) shelf.publications
          → IsPairwise (IsApart c) past
      past-apart past rows = subst (IsPairwise (IsApart c)) (sym rows) (
          IsPairwise-filter (IsApart c) (IsApart c) (λ p. matches p.curriculumid id)
            shelf.publications (λ p q mine yours apart. apart) sound.apart)
