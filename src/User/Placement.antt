-- ===== src/User/Placement.antt =====
-- An account never holds Super Admin and an organisation at once, and one that has neither is
-- disabled.
use mathlib.Core.Path.{subst}
use edtech_lms_api.Prelude.{
  String, Bool, true, false, Option, none, List, [], ◌∷◌, ◌≡◌, arith, inl, inr, Bool-cases, All,
  map, if◌then◌else◌, IsIn, find-IsIn, ◌&&◌,
}
use edtech_lms_api.Errors.{ok, >>=-eq-ok}
use edtech_lms_api.Claims.{OrgContext}
use edtech_lms_api.Scope.{scope_of, find_owned_user, owned_where}
use edtech_lms_api.Roles.{holds_super_admin}
use edtech_lms_api.Store.{Collation, Db, User, save_user}
use edtech_lms_api.User.{no_such_user}

pub record IsPlaced (u : User) : Type 0 where
  pub platform_account : holds_super_admin u.roleids ≡ true → u.organisationid ≡ none
  pub has_a_place :
      holds_super_admin u.roleids ≡ false → u.organisationid ≡ none → u.isdisabled ≡ true

All-map_if :
    (P : User → Type 0) (p : User → Bool) (u : User) (us : List User)
    → P u
    → All P us
    → All P (map (λ v. if p v then u else v) us)
All-map_if P p u [] h hs = tt
All-map_if P p u (v ∷ vs) h (hv, hs) = elim (Bool-cases (p v)) [
  | inl e ↦ rw e (h, All-map_if P p u vs h hs)
  | inr e ↦ rw e (hv, All-map_if P p u vs h hs)
]

All-IsIn : (P : User → Type 0) (u : User) (us : List User) → All P us → IsIn u us → P u
All-IsIn P u [] h m = absurd m
All-IsIn P u (v ∷ vs) (hv, hs) (inl e) = subst P e hv
All-IsIn P u (v ∷ vs) (hv, hs) (inr m) = All-IsIn P u vs hs m

module _ (c : Collation) where
  pub find_owned_user-IsPlaced :
      (org : Option OrgContext) (id : String) (db : Db) (user : User)
      → All IsPlaced db.users
      → find_owned_user c org id no_such_user db ≡ ok user
      → IsPlaced user
  unfolding find_owned_user
  find_owned_user-IsPlaced org id db user placed h =
      let (scope, scoped, found) = >>=-eq-ok (scope_of org) _ h in
      All-IsIn IsPlaced user db.users placed (
        find-IsIn (λ u. c.matches u.lmsuserid id && owned_where c scope u.organisationid) db.users
          (ground arith))

  pub save_user-IsPlaced :
      (user : User) (db : Db)
      → IsPlaced user
      → All IsPlaced db.users
      → All IsPlaced (save_user c user db).users
  unfolding save_user
  save_user-IsPlaced user db p placed =
      All-map_if IsPlaced (λ v. c.matches v.lmsuserid user.lmsuserid) user db.users p placed
