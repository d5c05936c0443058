-- ===== src/RolePermission/Resolved.antt =====
-- src/business/role-permission.business.ts: what `resolvePerms` answers.
use edtech_lms_api.Prelude.{
  String, ◌≡◌, ◌↔◌, inl, inr, Bool, true, not, ◌&&◌, List, map, arith, Bool-cases, &&_true, filter,
  any, IsIn, IsIn-filter, IsIn-filter_of, any-IsIn, any-of_IsIn, IsIn-append, IsIn-append_left,
  IsIn-append_right,
}
use edtech_lms_api.Store.{Collation, Permission, PermissionTitle, Db}
use edtech_lms_api.RolePermission.Edit.{
  names_group, title_of, is_group_kind, is_parent_kind, permissions_of, groups_under,
  leaf_permissions, parent_permissions, check_parent_role, resolve_perms,
}
use edtech_lms_api.RolePermission.Asked.{
  IsIn-over_groups_of, IsNamed, IsOf, IsAsked, by_id, by_group, by_parent, by_grandparent,
  IsChild-groups_under, IsOf-permissions_of, leaf_permissions-of_IsChild, check_parent_role-IsAsked,
  IsAsked-check_parent_role,
}

module _ (c : Collation) (ids : List String) (db : Db) where
  open c use {matches}

  abbrev titles : List String
  titles = map title_of (filter names_group ids)

  -- The group is of the permission, named by the request, and one of those with permissions.
  abbrev names_group_of : Permission → PermissionTitle → Bool
  names_group_of q t =
      matches t.permissiontitleid q.permissiontitleid
      && (any (matches t.permissiontitleid) titles && is_group_kind t.kind)

  resolve_perms-IsAsked :
      (p : Permission)
      → IsIn p (resolve_perms c ids db)
      → IsIn p db.permissions × IsAsked c ids db p
  unfolding resolve_perms
  resolve_perms-IsAsked p m = elim (IsIn-append p _ _ m) [
    | inl direct ↦ let (stored, h) = IsIn-filter _ p db.permissions direct in (stored, by_id h)
    | inr grouped ↦
        elim (IsIn-append p (check_parent_role c titles db)
          (filter (λ q. any (names_group_of q) db.titles) db.permissions) grouped) [
            | inl parents ↦ check_parent_role-IsAsked c ids db p parents
            | inr own ↦
                let (stored, h) =
                  IsIn-filter (λ q. any (names_group_of q) db.titles) p db.permissions own in
                let (t, i, more) = any-IsIn (names_group_of p) db.titles h in
                let (of, rest) = &&_true _ _ more in
                let (named, kind) = &&_true _ _ rest in
                (stored, by_group t (i, named) (ground arith) of)
          ]
  ]

  -- The rows that all three queries find, in the order in which they are joined.
  found_directly :
      (p : Permission)
      → any (matches p.permissionid) (filter (λ s. not (names_group s)) ids) ≡ true
      → IsIn p db.permissions
      → IsIn p (resolve_perms c ids db)
  unfolding resolve_perms
  found_directly p h stored = IsIn-append_left p _ _ (
      IsIn-filter_of (λ q. any (matches q.permissionid) (filter (λ s. not (names_group s)) ids)) p
        db.permissions stored h)

  found_by_parent :
      (p : Permission) (r : PermissionTitle)
      → IsNamed c ids db r
      → is_parent_kind r.kind ≡ true
      → IsIn p (parent_permissions c db r)
      → IsIn p (resolve_perms c ids db)
  unfolding resolve_perms
  found_by_parent p r named kind m = IsIn-append_right p _ _ (
      IsIn-append_left p (check_parent_role c titles db) _
        (IsAsked-check_parent_role c ids db p r named kind m))

  found_by_group :
      (p : Permission) (t : PermissionTitle)
      → IsNamed c ids db t
      → is_group_kind t.kind ≡ true
      → IsOf c ids db p t
      → IsIn p db.permissions
      → IsIn p (resolve_perms c ids db)
  unfolding resolve_perms
  found_by_group p t (i, named) kind of stored = IsIn-append_right p _ _ (
      IsIn-append_right p (check_parent_role c titles db) _ (
        IsIn-filter_of (λ q. any (names_group_of q) db.titles) p db.permissions stored
          (any-of_IsIn (names_group_of p) t db.titles i (ground arith))))

  IsAsked-resolve_perms :
      (p : Permission)
      → IsAsked c ids db p
      → IsIn p db.permissions
      → IsIn p (resolve_perms c ids db)
  IsAsked-resolve_perms p (by_id h) stored = found_directly p h stored
  IsAsked-resolve_perms p (by_group t named kind of) stored =
      elim (Bool-cases (is_group_kind t.kind)) [
        | inl plain ↦ found_by_group p t named plain of stored
        | inr other ↦ found_by_parent p t named (ground arith) (
            IsIn-append_right p _ _ (
              IsIn-append_right p (leaf_permissions c db t) (permissions_of c t db)
                (IsOf-permissions_of c ids db p t stored of)))
      ]
  IsAsked-resolve_perms p (by_parent r t named kind child of) stored =
      found_by_parent p r named kind (
        IsIn-append_right p _ _ (
          IsIn-append_left p (leaf_permissions c db r) (permissions_of c r db) (
            leaf_permissions-of_IsChild c ids db p t r child
              (IsOf-permissions_of c ids db p t stored of))))
  IsAsked-resolve_perms p (by_grandparent r m t named kind mid child of) stored =
      found_by_parent p r named kind (
        IsIn-append_left p _ _ (
          IsIn-over_groups_of (leaf_permissions c db) p m (groups_under c r.permissiontitleid 4 db)
            (IsChild-groups_under c ids db 4 m r mid)
            (leaf_permissions-of_IsChild c ids db p t m child
              (IsOf-permissions_of c ids db p t stored of))))

  -- The permissions that a request stands for are the stored ones that it asks for: by their own
  -- ids, as those of a group that it names, or as those of a leaf one or two levels under such a
  -- group of kind 2 or 4.
  pub resolve_perms_iff :
      (p : Permission)
      → IsIn p (resolve_perms c ids db) ↔ (IsIn p db.permissions × IsAsked c ids db p)
  resolve_perms_iff p =
      (resolve_perms-IsAsked p, (λ (stored, asked). IsAsked-resolve_perms p asked stored))
