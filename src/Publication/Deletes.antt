-- ===== src/Publication/Deletes.antt =====
-- src/business/curriculum.business.ts: deleting a curriculum keeps the stored publications sound.
use edtech_lms_api.Prelude.{
  String, ◌≡◌, refl, sym, ap, ◌∙◌, subst, inl, inr, Bool, true, false, not, ◌&&◌, Option, none,
  some, List, [], ◌∷◌, map, arith, if◌then◌else◌, Bool-cases, &&_true, find, find_sound, IsIn-map,
}
use edtech_lms_api.Errors.{ok, ok-injective, >>-eq-ok}
use edtech_lms_api.Claims.{OrgContext}
use edtech_lms_api.Store.{Collation}
use edtech_lms_api.Content.{Content}
use edtech_lms_api.Publication.Shelf.{
  withdrawn, is_published, Publication, CurriculumRow, Shelf, is_live_publication, withdraw_row,
  withdraw_publications,
}
use edtech_lms_api.Publication.Publish.{
  is_live_row, delete_row, delete_found, check_caller, delete_curriculum,
}
use edtech_lms_api.Publication.Sound.{IsSound, withdraw_row-keys, withdraw_publications-IsSound}

module _ (c : Collation) where
  open c use {matches}

  -- A row of another id is found as it was.
  find_curriculum-delete :
      (gone id : String) (rows : List CurriculumRow)
      → matches id gone ≡ false
      → find (λ row. matches row.curriculumid id) (map (delete_row c gone) rows)
        ≡ find (λ row. matches row.curriculumid id) rows
  find_curriculum-delete gone id [] h = refl
  find_curriculum-delete gone id (row ∷ rows) h =
      elim (Bool-cases (matches row.curriculumid gone)) [
        | inl e ↦ elim (Bool-cases (matches row.curriculumid id)) [
          | inl f ↦ absurd (
              ground (
                arith,
                h,
                c.matches_trans id row.curriculumid gone (c.matches_sym row.curriculumid id f) e,
              ))
          | inr f ↦ ground (arith, find_curriculum-delete gone id rows h)
        ]
        | inr e ↦ ground (arith, find_curriculum-delete gone id rows h)
      ]

  pub still_published :
      (id : String) (q : Publication)
      → is_published (withdraw_row c id q).status ≡ true
      → (is_published q.status ≡ true) × (matches q.curriculumid id ≡ false)
  still_published id q h = elim (Bool-cases (is_live_publication c id q)) [
    | inl e ↦ absurd (ground (arith, e))
    | inr e ↦
        let kept : is_published q.status ≡ true =
          ap (λ b. is_published (if b then record q { status = withdrawn } else q).status) (sym e)
          ∙ h in
        (kept, ground arith)
  ]

  deleted-IsSound :
      (id gone : String) (shelf : Shelf)
      → matches gone id ≡ true
      → IsSound c shelf
      → IsSound c (record (withdraw_publications c id shelf).1 {
        curricula = map (delete_row c gone) shelf.curricula;
      })
  unfolding withdraw_publications
  deleted-IsSound id gone shelf same sound =
      let after = withdraw_publications-IsSound c id shelf sound in
      record {
        apart = after.apart;
        newer = after.newer;
        whole = after.whole;
        live = λ p m shown.
            let (q, i, was) = IsIn-map (withdraw_row c id) p shelf.publications m in
            let (before, other) =
              still_published id q (ap (λ x. is_published x.status) was ∙ shown) in
            let key : p.curriculumid ≡ q.curriculumid =
              ap (λ x. x.curriculumid) (sym was) ∙ (withdraw_row-keys c id q).1 in
            ap
              (λ x. is_live_row c (
                find (λ row. matches row.curriculumid x) (map (delete_row c gone) shelf.curricula)))
              key
            ∙ ap (is_live_row c)
                (find_curriculum-delete gone q.curriculumid shelf.curricula (apart q other))
            ∙ sound.live q i before;
      }
    where
      apart :
          (q : Publication)
          → matches q.curriculumid id ≡ false
          → matches q.curriculumid gone ≡ false
      apart q other = elim (Bool-cases (matches q.curriculumid gone)) [
        | inl e ↦ absurd (ground (arith, other, c.matches_trans q.curriculumid gone id e same))
        | inr e ↦ e
      ]

  -- A delete keeps the shelf sound.
  pub delete_curriculum-IsSound :
      (t : Content) (org : Option OrgContext) (id : String) (shelf after : Shelf)
      (answer : Option (Option String × Bool))
      → IsSound c shelf
      → delete_curriculum c t org id shelf ≡ ok (answer, after)
      → IsSound c after
  unfolding delete_curriculum withdraw_publications
  delete_curriculum-IsSound t org id shelf after answer sound h =
      let (allowed, done) = >>-eq-ok (check_caller c t org id) _ h in
      by_found org (find (λ row. matches row.curriculumid id && not row.isdeleted) shelf.curricula)
        refl done
    where
      by_found :
          (org : Option OrgContext) (found : Option CurriculumRow)
          → find (λ row. matches row.curriculumid id && not row.isdeleted) shelf.curricula ≡ found
          → delete_found c org id found shelf ≡ ok (answer, after)
          → IsSound c after
      by_found none none e q = subst (IsSound c) (ap (λ x. x.1) (ok-injective q)) sound
      by_found (some o) none e q = absurd (ground arith)
      by_found org (some row) e q =
          let at =
            find_sound (λ row. matches row.curriculumid id && not row.isdeleted) shelf.curricula
              e in
          subst (IsSound c)
            (ap (λ (x : Option (Option String × Bool) × Shelf). x.1) (ok-injective q))
            (deleted-IsSound id row.curriculumid shelf (&&_true _ _ at).0 sound)
