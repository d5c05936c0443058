-- ===== src/Publication/MadeOf.antt =====
-- src/business/published-content.ts: the tables that learners are served, and the stored copy that
-- they are of.
use edtech_lms_api.Prelude.{
  ◌≤◌, String, ◌≡◌, sym, ap, ◌∙◌, inl, inr, Bool, true, ◌&&◌, Option, none, some, List, arith,
  Option-cases, &&_true, find, IsIn, find-IsIn, find_sound, ◌==◌, eq_true, IsPairwise,
}
use edtech_lms_api.Errors.{ok, ok-injective, >>-eq-ok}
use edtech_lms_api.Js.{str}
use edtech_lms_api.Session.{same_text}
use edtech_lms_api.Store.{Collation}
use edtech_lms_api.Export.Keys.{key_of}
use edtech_lms_api.Publication.Payload.{Payload}
use edtech_lms_api.Publication.Shelf.{is_published, Publication, CurriculumRow, Shelf}
use edtech_lms_api.Publication.Merge.{PublishedSet}
use edtech_lms_api.Publication.Order.{IsApart, IsApart-same}
use edtech_lms_api.Publication.Sets.{payload_or_none, set_with, set_of, read_published_sets}
use edtech_lms_api.Publication.Latest.{latest_published-newest}
use edtech_lms_api.Publication.Shown.{IsRowOf, read_published_sets-IsIn}

module _ (c : Collation) (lower : String → String) where
  open c use {matches}

  abbrev is_spelled_as : String → String → Bool
  is_spelled_as a b = same_text (key_of lower (str a)) (key_of lower (str b))

  -- What a set says is what the publication and its stored copy say, and the copy is of the
  -- publication's curriculum and the organisation.
  pub record IsCopyOf (organisationid : String) (s : PublishedSet) (p : Publication) : Type 0 where
    pub same_publication : s.publicationid ≡ p.publicationid
    pub same_curriculum : s.curriculumid ≡ p.curriculumid
    pub same_time : s.publishedat ≡ p.publishedat
    pub payload : Payload
    pub held : p.payload ≡ some payload
    pub same_tables : s.tables ≡ payload.tables
    pub for_organisation : is_spelled_as payload.organisationid organisationid ≡ true
    pub for_curriculum : is_spelled_as payload.curriculumid p.curriculumid ≡ true

  -- The publication that a set was made of: stored, published, of the organisation, and no older
  -- than any other of the organisation and the curriculum.
  pub record IsMadeOf (organisationid : String) (shelf : Shelf) (s : PublishedSet) (p : Publication)
      : Type 0 where
    pub stored : IsIn p shelf.publications
    pub shown : is_published p.status ≡ true
    pub owned : matches p.organisationid organisationid ≡ true
    pub newest :
        (q : Publication)
        → IsIn q shelf.publications
        → matches q.organisationid organisationid ≡ true
        → q.curriculumid ≡ p.curriculumid
        → q.publishedat ≤ p.publishedat
    pub copy : IsCopyOf organisationid s p

  set_with-IsCopyOf :
      (o : String) (p : Publication) (payload : Option Payload) (s : PublishedSet)
      → p.payload ≡ payload
      → set_with c lower o p payload ≡ ok s
      → IsCopyOf o s p
  set_with-IsCopyOf o p none s held h = absurd (ground arith)
  set_with-IsCopyOf o p (some payload) s held h =
      let (checked, made) = >>-eq-ok _ _ h in
      let same = sym (ok-injective made) in
      let both : (is_spelled_as payload.organisationid o
            && is_spelled_as payload.curriculumid p.curriculumid)
          ≡ true =
        ground arith in
      let (mine, its) = &&_true _ _ both in
      record {
        same_publication = ap (λ x. x.publicationid) same;
        same_curriculum = ap (λ x. x.curriculumid) same;
        same_time = ap (λ x. x.publishedat) same;
        payload = payload;
        held = held;
        same_tables = ap (λ x. x.tables) same;
        for_organisation = mine;
        for_curriculum = its;
      }

  -- Where ids are unique, the copy that is read again by a publication's id is its own.
  read_again :
      (p : Publication) (ps : List Publication) (payload : Payload)
      → IsPairwise (IsApart c) ps
      → IsIn p ps
      → payload_or_none (find (λ q. q.publicationid == p.publicationid) ps) ≡ some payload
      → p.payload ≡ some payload
  read_again p ps payload apart i h =
      let test : Publication → Bool = λ q. q.publicationid == p.publicationid in
      elim (Option-cases (find test ps)) [
        | inl n ↦ absurd (ground arith)
        | inr (q, found) ↦
            let named = eq_true q.publicationid p.publicationid (find_sound test ps found) in
            let same : q ≡ p =
              IsApart-same c q p ps apart (find-IsIn test ps found) i
                (ap (λ x. matches x p.publicationid) named ∙ c.matches_refl p.publicationid) in
            ap (λ x. x.payload) (sym same) ∙ sym (ap payload_or_none found) ∙ h
      ]

  set_of-IsCopyOf :
      (o : String) (shelf : Shelf) (p : Publication) (s : PublishedSet)
      → IsPairwise (IsApart c) shelf.publications
      → IsIn p shelf.publications
      → set_of c lower o shelf p ≡ ok s
      → IsCopyOf o s p
  unfolding set_of
  set_of-IsCopyOf o shelf p s apart i h =
      let read =
        payload_or_none (find (λ q. q.publicationid == p.publicationid) shelf.publications) in
      elim (Option-cases read) [
        | inl n ↦ absurd (ground (arith, sym (ap (set_with c lower o p) n) ∙ h))
        | inr (payload, e) ↦
            set_with-IsCopyOf o p (some payload) s
              (read_again p shelf.publications payload apart i e)
              (sym (ap (set_with c lower o p) e) ∙ h)
      ]

  -- What learners of an organisation are served is of a publication made for the organisation that
  -- is stored and `published`, with no later one of the organisation and curriculum, and whose
  -- curriculum is there, the organisation's and not deleted: its time, and the tables of its stored
  -- copy, which is of that curriculum and organisation. Publications are told apart by their ids.
  pub read_published_sets-IsMadeOf :
      (o : String) (shelf : Shelf) (made : List PublishedSet) (s : PublishedSet)
      → IsPairwise (IsApart c) shelf.publications
      → read_published_sets c lower o shelf ≡ ok made
      → IsIn s made
      → (p : Publication) × IsMadeOf o shelf s p
        × ((row : CurriculumRow) × IsRowOf c lower o shelf p row)
  read_published_sets-IsMadeOf o shelf made s apart h m =
      let (p, stored, shown, owned, latest, one, live) =
        read_published_sets-IsIn c lower o shelf made s h m in
      (
        p,
        record {
          stored = stored;
          shown = shown;
          owned = owned;
          newest = λ q i mine same. latest_published-newest c lower o shelf p q latest i mine same;
          copy = set_of-IsCopyOf o shelf p s apart stored one;
        },
        live,
      )
