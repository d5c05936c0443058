-- ===== src/Publication/Reach.antt =====
-- src/business/curriculum-publication.ts, src/business/curriculum.business.ts: the shelves that
-- publishes, retires and deletes lead to. The reads of a publish may be of an earlier shelf than
-- the one that it commits on: whatever other calls commit in between stands between the two.
use edtech_lms_api.Prelude.{
  ℕ, String, ◌≡◌, sym, ap, ◌∙◌, subst, inl, inr, Bool, true, false, Option, List, [], arith,
  Bool-cases, find, IsIn, ◌==◌, IsPairwise,
}
use edtech_lms_api.Js.{Value, str}
use edtech_lms_api.Errors.{ok, >>=-eq-ok, ok-injective, Result-cases, >>-eq-ok}
use edtech_lms_api.Scope.{platform, organisation, scope_of}
use edtech_lms_api.Claims.{OrgContext}
use edtech_lms_api.Store.{Collation}
use edtech_lms_api.Content.{curriculum, Content}
use edtech_lms_api.Content.Kinds.{missing_of, in_scope, assert_in_scope}
use edtech_lms_api.Export.Keys.{Row}
use edtech_lms_api.Publication.Payload.{Tables}
use edtech_lms_api.Publication.Hashes.{RowHashes}
use edtech_lms_api.Publication.Shelf.{Shelf, PublicationState, withdraw_publications}
use edtech_lms_api.Publication.Reading.{publish, retire, publishing_organisation, Reading}
use edtech_lms_api.Publication.Publish.{publish_commit, retire_curriculum, delete_curriculum}
use edtech_lms_api.Publication.Order.{IsNewer, IsApart}
use edtech_lms_api.Publication.Sound.{IsSound, withdraw_publications-IsSound}
use edtech_lms_api.Publication.Kept.{publish_commit-checks, publish_writes-IsSound}
use edtech_lms_api.Publication.Reads.{IsRead, publish_read-parts}
use edtech_lms_api.Publication.Runs.{payload_of-id}
use edtech_lms_api.Publication.Deletes.{delete_curriculum-IsSound}

-- The language's functions that a payload is built and hashed with.
pub record Language : Type 0 where
  pub lower : String → String
  pub parse : String → Option Value
  pub text : Row → String
  pub sha256 : String → String
  pub payload_hash : RowHashes → String

module _ (c : Collation) (l : Language) where
  open c use {matches}

  -- One call that commits.
  pub data Step (before after : Shelf) : Type 0 where
    publishes :
        (t : Content) (org : Option OrgContext) (id user : String) (now : ℕ) (uuid key : String)
        (time : ℕ) (content : Tables) (subject_rows : List Row) (read : Shelf) (reading : Reading)
        → IsRead c l.lower l.parse l.text l.sha256 l.payload_hash t org id content subject_rows read
            reading
        → publish_commit c id user now uuid reading before ≡ ok (key, time, after)
        → Step before after
    retires :
        (t : Content) (org : Option OrgContext) (id : String) (answer : Bool × PublicationState)
        → retire_curriculum c t org id before ≡ ok (answer, after)
        → Step before after
    deletes :
        (t : Content) (org : Option OrgContext) (id : String)
        (answer : Option (Option String × Bool))
        → delete_curriculum c t org id before ≡ ok (answer, after)
        → Step before after

  -- Calls, one after another.
  pub data Run (first : Shelf) : Shelf → Type 0 where
    start : Run first first
    then : {before after : Shelf} → Run first before → Step before after → Run first after

  -- A curriculum with an empty id is found by nobody.
  inside-named :
      (t : Content) (org : Option OrgContext) (id o : String)
      → publishing_organisation org publish ≡ ok o
      → assert_in_scope c t org curriculum (str id) (missing_of curriculum) ≡ ok tt
      → (id == "") ≡ false
  unfolding publishing_organisation assert_in_scope in_scope
  inside-named t org id o acting inside = elim (Result-cases (scope_of org)) [
    | inl (e, refused) ↦ absurd (ground (arith, refused))
    | inr (platform, scoped) ↦ absurd (ground (arith, scoped))
    | inr (organisation mine, scoped) ↦ elim (Bool-cases (id == "")) [
      | inl e ↦ absurd (ground (arith, scoped, e))
      | inr e ↦ e
    ]
  ]

  module _ (folds : (a b : String) → l.lower a ≡ l.lower b → matches a b ≡ true) where
    pub publishes-IsSound :
        (t : Content) (org : Option OrgContext) (id user : String) (now : ℕ) (uuid key : String)
        (time : ℕ) (content : Tables) (subject_rows : List Row) (read before after : Shelf)
        (reading : Reading)
        → IsSound c before
        → IsRead c l.lower l.parse l.text l.sha256 l.payload_hash t org id content subject_rows read
            reading
        → publish_commit c id user now uuid reading before ≡ ok (key, time, after)
        → IsSound c after
    publishes-IsSound t org id user now uuid key time content subject_rows read before after reading
          sound was_read h =
        let (noted, made, acting, inside) =
          publish_read-parts c l.lower l.parse l.text l.sha256 l.payload_hash t org id content
            subject_rows read reading was_read in
        let ours = folds reading.payload.curriculumid id (
          payload_of-id l.lower l.parse reading.organisationid content id subject_rows
            reading.payload (inside-named t org id reading.organisationid acting inside) made) in
        let (there, latest, free, same) =
          publish_commit-checks c id user now uuid reading before (key, time, after) h in
        subst (IsSound c) (ap (λ (x : String × ℕ × Shelf). x.2) (sym same))
          (publish_writes-IsSound c id user now uuid reading before sound ours free there)

    retires-IsSound :
        (t : Content) (org : Option OrgContext) (id : String) (before after : Shelf)
        (answer : Bool × PublicationState)
        → IsSound c before
        → retire_curriculum c t org id before ≡ ok (answer, after)
        → IsSound c after
    unfolding retire_curriculum withdraw_publications
    retires-IsSound t org id before after answer sound h =
        let (o, acting, rest) = >>=-eq-ok (publishing_organisation org retire) _ h in
        let (inside, done) =
          >>-eq-ok (assert_in_scope c t org curriculum (str id) (missing_of curriculum)) _ rest in
        subst (IsSound c) (ap (λ (x : (Bool × PublicationState) × Shelf). x.1) (ok-injective done))
          (withdraw_publications-IsSound c id before sound)

    Step-IsSound : (before after : Shelf) → Step before after → IsSound c before → IsSound c after
    Step-IsSound before after
          (publishes t org id user now uuid key time content rows read reading r h) sound =
        publishes-IsSound t org id user now uuid key time content rows read before after reading
          sound r h
    Step-IsSound before after (retires t org id answer h) sound =
        retires-IsSound t org id before after answer sound h
    Step-IsSound before after (deletes t org id answer h) sound =
        delete_curriculum-IsSound c t org id before after answer sound h

    empty-IsSound : (shelf : Shelf) → shelf.publications ≡ [] → IsSound c shelf
    empty-IsSound shelf none_yet = record {
      apart = subst (IsPairwise (IsApart c)) (sym none_yet) tt;
      newer = subst (IsPairwise (IsNewer c)) (sym none_yet) tt;
      whole = λ id p found.
          absurd
            (ground (arith, ap (find (λ p. matches p.curriculumid id)) (sym none_yet) ∙ found));
      live = λ p m. absurd (subst (IsIn p) none_yet m);
    }

    -- Whatever publishes, retires and deletes commit, one after another, on a shelf with no
    -- publications: primary keys differ, of two publications of a curriculum the later row has the
    -- later time, the latest publication of each curriculum has its payload, and no publication of
    -- a curriculum that is deleted or not there is `published`. The hypothesis is that the
    -- database's comparison does not tell cases apart.
    pub Run-IsSound :
        (first last : Shelf) → first.publications ≡ [] → Run first last → IsSound c last
    Run-IsSound first last none_yet start = empty-IsSound first none_yet
    Run-IsSound first last none_yet (then {before} {after} run step) =
        Step-IsSound before after step (Run-IsSound first before none_yet run)
