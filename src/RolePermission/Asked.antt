-- ===== src/RolePermission/Asked.antt =====
-- src/business/role-permission.business.ts: what the ids and groups of a request ask for, and the
-- groups that `checkParentRole` goes through.
use edtech_lms_api.Prelude.{
  ℕ, String, ◌≡◌, refl, sym, subst, inl, inr, true, not, ◌&&◌, ◌||◌, List, [], ◌∷◌, map, arith,
  nat_eq, &&_true, filter, any, IsIn, IsIn-filter, IsIn-filter_of, IsIn-append, IsIn-append_left,
  IsIn-append_right,
}
use edtech_lms_api.Store.{Collation, Permission, PermissionTitle, Db}
use edtech_lms_api.RolePermission.Edit.{
  names_group, title_of, is_group_kind, is_parent_kind, over_groups, permissions_of, is_under,
  groups_under, leaf_permissions, parent_permissions, check_parent_role,
}

IsIn-over_groups :
    (own : PermissionTitle → List Permission) (p : Permission) (ts : List PermissionTitle)
    → IsIn p (over_groups own ts)
    → (t : PermissionTitle) × IsIn t ts × IsIn p (own t)
IsIn-over_groups own p [] m = absurd m
IsIn-over_groups own p (t ∷ ts) m = elim (IsIn-append p (own t) (over_groups own ts) m) [
  | inl here ↦ (t, inl refl, here)
  | inr later ↦ let (u, i, its) = IsIn-over_groups own p ts later in (u, inr i, its)
]

pub IsIn-over_groups_of :
    (own : PermissionTitle → List Permission) (p : Permission) (t : PermissionTitle)
    (ts : List PermissionTitle)
    → IsIn t ts
    → IsIn p (own t)
    → IsIn p (over_groups own ts)
IsIn-over_groups_of own p t [] i m = absurd i
IsIn-over_groups_of own p t (x ∷ xs) (inl e) m =
    IsIn-append_left p (own x) (over_groups own xs) (subst (λ y. IsIn p (own y)) (sym e) m)
IsIn-over_groups_of own p t (x ∷ xs) (inr i) m =
    IsIn-append_right p (own x) (over_groups own xs) (IsIn-over_groups_of own p t xs i m)

module _ (c : Collation) (ids : List String) (db : Db) where
  open c use {matches}

  -- The group is stored and a request names it whole.
  abbrev pub IsNamed : PermissionTitle → Type 0
  IsNamed t =
      IsIn t db.titles
      × (any (matches t.permissiontitleid) (map title_of (filter names_group ids)) ≡ true)

  -- A stored group of a kind, right under another.
  abbrev pub IsChild : ℕ → PermissionTitle → PermissionTitle → Type 0
  IsChild n t parent =
      IsIn t db.titles
      × (is_under c parent.permissiontitleid t.parentid ≡ true)
      × (nat_eq t.kind n ≡ true)

  abbrev pub IsOf : Permission → PermissionTitle → Type 0
  IsOf p t = matches t.permissiontitleid p.permissiontitleid ≡ true

  -- What a request asks for: a permission by its id, those of a group that it names, and of the
  -- leaves one or two levels under a group with groups under it.
  pub data IsAsked (p : Permission) : Type 0 where
    by_id : any (matches p.permissionid) (filter (λ s. not (names_group s)) ids) ≡ true → IsAsked p
    by_group :
        (t : PermissionTitle)
        → IsNamed t
        → (is_group_kind t.kind || is_parent_kind t.kind) ≡ true
        → IsOf p t
        → IsAsked p
    by_parent :
        (r t : PermissionTitle)
        → IsNamed r
        → is_parent_kind r.kind ≡ true
        → IsChild 3 t r
        → IsOf p t
        → IsAsked p
    by_grandparent :
        (r m t : PermissionTitle)
        → IsNamed r
        → is_parent_kind r.kind ≡ true
        → IsChild 4 m r
        → IsChild 3 t m
        → IsOf p t
        → IsAsked p

  pub groups_under-IsChild :
      (n : ℕ) (t parent : PermissionTitle)
      → IsIn t (groups_under c parent.permissiontitleid n db)
      → IsChild n t parent
  groups_under-IsChild n t parent m =
      let (i, h) = IsIn-filter _ t db.titles m in
      let (under, kind) = &&_true _ _ h in (i, under, kind)

  pub IsChild-groups_under :
      (n : ℕ) (t parent : PermissionTitle)
      → IsChild n t parent
      → IsIn t (groups_under c parent.permissiontitleid n db)
  IsChild-groups_under n t parent (i, under, kind) =
      IsIn-filter_of (λ u. is_under c parent.permissiontitleid u.parentid && nat_eq u.kind n) t
        db.titles i (ground arith)

  permissions_of-IsOf :
      (p : Permission) (t : PermissionTitle)
      → IsIn p (permissions_of c t db)
      → IsIn p db.permissions × IsOf p t
  permissions_of-IsOf p t m =
      IsIn-filter (λ q. matches t.permissiontitleid q.permissiontitleid) p db.permissions m

  pub IsOf-permissions_of :
      (p : Permission) (t : PermissionTitle)
      → IsIn p db.permissions
      → IsOf p t
      → IsIn p (permissions_of c t db)
  IsOf-permissions_of p t i of =
      IsIn-filter_of (λ q. matches t.permissiontitleid q.permissiontitleid) p db.permissions i of

  leaf_permissions-IsOf :
      (p : Permission) (r : PermissionTitle)
      → IsIn p (leaf_permissions c db r)
      → (t : PermissionTitle) × IsChild 3 t r × IsIn p (permissions_of c t db)
  leaf_permissions-IsOf p r m =
      let (t, i, its) =
        IsIn-over_groups (λ leaf. permissions_of c leaf db) p
          (groups_under c r.permissiontitleid 3 db) m in
      (t, groups_under-IsChild 3 t r i, its)

  pub leaf_permissions-of_IsChild :
      (p : Permission) (t r : PermissionTitle)
      → IsChild 3 t r
      → IsIn p (permissions_of c t db)
      → IsIn p (leaf_permissions c db r)
  leaf_permissions-of_IsChild p t r child m =
      IsIn-over_groups_of (λ leaf. permissions_of c leaf db) p t
        (groups_under c r.permissiontitleid 3 db) (IsChild-groups_under 3 t r child) m

  of_parent :
      (p : Permission) (r : PermissionTitle)
      → IsNamed r
      → is_parent_kind r.kind ≡ true
      → IsIn p (parent_permissions c db r)
      → IsIn p db.permissions × IsAsked p
  of_parent p r named kind m =
      let mids = groups_under c r.permissiontitleid 4 db in
      elim (IsIn-append p (over_groups (leaf_permissions c db) mids) _ m) [
        | inl deep ↦
            let (g, i, leaves) = IsIn-over_groups (leaf_permissions c db) p mids deep in
            let (t, child, its) = leaf_permissions-IsOf p g leaves in
            let (stored, of) = permissions_of-IsOf p t its in
            (stored, by_grandparent r g t named kind (groups_under-IsChild 4 g r i) child of)
        | inr near ↦ elim (IsIn-append p (leaf_permissions c db r) (permissions_of c r db) near) [
          | inl leaves ↦
              let (t, child, its) = leaf_permissions-IsOf p r leaves in
              let (stored, of) = permissions_of-IsOf p t its in
              (stored, by_parent r t named kind child of)
          | inr own ↦
              let (stored, of) = permissions_of-IsOf p r own in
              (stored, by_group r named (ground arith) of)
        ]
      ]

  pub check_parent_role-IsAsked :
      (p : Permission)
      → IsIn p (check_parent_role c (map title_of (filter names_group ids)) db)
      → IsIn p db.permissions × IsAsked p
  unfolding check_parent_role
  check_parent_role-IsAsked p m =
      let (r, i, its) = IsIn-over_groups (parent_permissions c db) p _ m in
      let (stored, h) = IsIn-filter _ r db.titles i in
      let (named, kind) = &&_true _ _ h in of_parent p r (stored, named) kind its

  pub IsAsked-check_parent_role :
      (p : Permission) (r : PermissionTitle)
      → IsNamed r
      → is_parent_kind r.kind ≡ true
      → IsIn p (parent_permissions c db r)
      → IsIn p (check_parent_role c (map title_of (filter names_group ids)) db)
  unfolding check_parent_role
  IsAsked-check_parent_role p r (stored, named) kind m =
      IsIn-over_groups_of (parent_permissions c db) p r _
        (IsIn-filter_of
          (λ t.
            any (matches t.permissiontitleid) (map title_of (filter names_group ids))
            && is_parent_kind t.kind)
          r db.titles stored (ground arith))
        m
