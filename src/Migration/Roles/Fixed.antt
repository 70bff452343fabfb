-- ===== src/Migration/Roles/Fixed.antt =====
-- What the migrations of the users' roles achieve, and that they need not be run twice.
use reearth_accounts.Prelude.{
  String, ◌≡◌, refl, ◌∙◌, sym, ap, Bool, true, not, ◌&&◌, ◌||◌, none, List, [], ◌∷◌, ◌++◌, str_eq,
  arith, eq_iff, eq_refl, Bool-cases, inl, inr,
}
use mathlib.Core.List.{append-nil}
use reearth_accounts.Prelude.Lists.{length, select}
use reearth_accounts.Role.{self, contains_text}
use reearth_accounts.Documents.Mongo.Roles.{RoleDocument}
use reearth_accounts.Documents.Mongo.Permittables.{PermittableDocument, WorkspaceRoleDocument}
use reearth_accounts.Migration.Roles.{
  role_name_to_id, or_empty, roles_to_remove, workspace_role_names, is_kept, with_self,
  new_role_ids, texts_equal, fix_role_ids, role_key, has_role, has_roles, workspace_roles_equal,
  afterwards,
}
use reearth_accounts.Migration.Roles.Named.{names, contains-if_named_lem, own_text_lem}

texts_equal→eq : (ss ts : List String) → texts_equal ss ts ≡ true → ss ≡ ts
texts_equal→eq [] [] h = refl
texts_equal→eq [] (t ∷ ts) h = cc
texts_equal→eq (s ∷ ss) [] h = cc
texts_equal→eq (s ∷ ss) (t ∷ ts) h = ground (arith, texts_equal→eq ss ts, eq_iff s t)

texts_equal_refl : (ss : List String) → texts_equal ss ss ≡ true
texts_equal_refl [] = refl
texts_equal_refl (s ∷ ss) = rw (eq_refl s, texts_equal_refl ss) refl

pub contains-append :
    (s t : String) (l : List String)
    → contains_text s (l ++ t ∷ []) ≡ (contains_text s l || str_eq s t)
contains-append s t [] = ground arith
contains-append s t (x ∷ l) = ground (arith, contains-append s t l)

contains-select :
    (removed : List String) (s : String) (l : List String)
    → contains_text s (select (is_kept removed) l) ≡ (contains_text s l && is_kept removed s)
contains-select removed s [] = refl
contains-select removed s (x ∷ l) = elim (Bool-cases (str_eq s x)) [
  | inl e ↦ rw ((eq_iff s x).0 e) (ground (arith, contains-select removed x l, eq_refl x))
  | inr e ↦ rw e (ground (arith, contains-select removed s l))
]

select-append :
    (p : String → Bool) (l r : List String) → select p (l ++ r) ≡ select p l ++ select p r
select-append p [] r = refl
select-append p (x ∷ l) r = ground (arith, select-append p l r)

select_twice : (p : String → Bool) (l : List String) → select p (select p l) ≡ select p l
select_twice p [] = refl
select_twice p (x ∷ l) = ground (arith, select_twice p l)

contains-with_self :
    (s self_id : String) (ids : List String)
    → contains_text s (with_self self_id ids)
      ≡ (contains_text s ids || (not (str_eq self_id "") && str_eq s self_id))
contains-with_self s self_id ids = elim (Bool-cases (str_eq s self_id)) [
  | inl e ↦
      rw ((eq_iff s self_id).0 e)
        (ground (arith, contains-append self_id self_id ids, eq_refl self_id))
  | inr e ↦ rw e (ground (arith, contains-append s self_id ids))
]

-- Filtering and adding once more changes nothing.
with_self_twice :
    (removed : List String) (self_id : String) (ids : List String)
    → let p = is_kept removed in
      let once = with_self self_id (select p ids) in with_self self_id (select p once) ≡ once
with_self_twice removed self_id ids =
    let p = is_kept removed in
    let kept = select p ids in
    elim (Bool-cases (not (str_eq self_id "") && not (contains_text self_id kept))) [
      | inr e ↦ rw (e, select_twice p ids, e) refl
      | inl e ↦ elim (Bool-cases (is_kept removed self_id)) [
        | inl k ↦
            rw
              (
                e,
                select-append p kept (self_id ∷ []),
                select_twice p ids,
                k,
                contains-append self_id self_id kept,
                eq_refl self_id,
              )
              (ground arith)
        | inr k ↦
            rw (e, select-append p kept (self_id ∷ []), select_twice p ids, k)
              (ground (arith, append-nil kept))
      ]
    ]

-- The collection has the new identifiers, whether the document was saved or not.
fixed_role_ids :
    (roles : List RoleDocument) (d : PermittableDocument)
    → (afterwards d (fix_role_ids roles d)).role_ids ≡ new_role_ids roles d.role_ids
unfolding fix_role_ids
fixed_role_ids roles d =
    elim (Bool-cases (texts_equal d.role_ids (new_role_ids roles d.role_ids))) [
      | inl e ↦ rw e (texts_equal→eq d.role_ids (new_role_ids roles d.role_ids) e)
      | inr e ↦ rw e
    ]

nothing_to_fix :
    (roles : List RoleDocument) (d : PermittableDocument)
    → new_role_ids roles d.role_ids ≡ d.role_ids
    → fix_role_ids roles d ≡ none
unfolding fix_role_ids
nothing_to_fix roles d e = rw (ap (texts_equal d.role_ids) e ∙ texts_equal_refl d.role_ids) refl

new_role_ids_twice :
    (roles : List RoleDocument) (ids : List String)
    → new_role_ids roles (new_role_ids roles ids) ≡ new_role_ids roles ids
new_role_ids_twice roles ids =
    with_self_twice (roles_to_remove roles workspace_role_names)
      (or_empty (role_name_to_id roles self)) ids

-- The name of a role in workspaces
abbrev pub is_workspace_role : List RoleDocument → String → Bool
is_workspace_role roles s =
    names roles "owner" s
    || names roles "maintainer" s
    || names roles "writer" s
    || names roles "reader" s

kept :
    (roles : List RoleDocument) (s : String)
    → is_kept (roles_to_remove roles workspace_role_names) s
      ≡ (not (str_eq s "") && not (is_workspace_role roles s))
kept roles s =
    rw
      (
        contains-if_named_lem roles "owner" s
            (roles_to_remove roles ("maintainer" ∷ "writer" ∷ "reader" ∷ [])),
        contains-if_named_lem roles "maintainer" s
            (roles_to_remove roles ("writer" ∷ "reader" ∷ [])),
        contains-if_named_lem roles "writer" s (roles_to_remove roles ("reader" ∷ [])),
        contains-if_named_lem roles "reader" s [],
      )
      (ground arith)

-- After `FixPermittableRoleIDs` a permittable has exactly the identifiers that it had and that are
-- not those of the roles "owner", "maintainer", "writer" and "reader", and that of the role "self",
-- but never the empty one; where several roles have a name, the last one counts. A second run saves
-- nothing.
pub fix_role_ids_lem :
    (roles : List RoleDocument) (d : PermittableDocument) (s : String)
    → let d' = afterwards d (fix_role_ids roles d) in
      (contains_text s d'.role_ids ≡ (
        not (str_eq s "")
        && ((contains_text s d.role_ids && not (is_workspace_role roles s))
            || names roles "self" s)))
      × (fix_role_ids roles d' ≡ none)
fix_role_ids_lem roles d s =
    let removed = roles_to_remove roles workspace_role_names in
    let self_id = or_empty (role_name_to_id roles self) in
    (
      ap (contains_text s) (fixed_role_ids roles d)
          ∙ contains-with_self s self_id (select (is_kept removed) d.role_ids)
          ∙ ap (λ b. b || (not (str_eq self_id "") && str_eq s self_id))
              (contains-select removed s d.role_ids)
          ∙ rw (own_text_lem roles "self" s, kept roles s) (ground arith),
      nothing_to_fix roles (afterwards d (fix_role_ids roles d)) (
          ap (new_role_ids roles) (fixed_role_ids roles d)
          ∙ new_role_ids_twice roles d.role_ids
          ∙ sym (fixed_role_ids roles d)),
    )

-- A role that is expected is there, whichever the order.
has_roles_lem :
    (a b : List WorkspaceRoleDocument) (wr : WorkspaceRoleDocument)
    → has_roles a b ≡ true
    → has_role b wr ≡ true
    → has_role a wr ≡ true
has_roles_lem a [] wr h k = cc
has_roles_lem a (x ∷ b) wr h k = elim (Bool-cases (str_eq (role_key x) (role_key wr))) [
  | inl e ↦ rw (← (eq_iff (role_key x) (role_key wr)).0 e) (ground arith)
  | inr e ↦ has_roles_lem a b wr (ground arith) (rw e at k)
]

has_roles-cons :
    (x : WorkspaceRoleDocument) (a b : List WorkspaceRoleDocument)
    → has_roles a b ≡ true
    → has_roles (x ∷ a) b ≡ true
has_roles-cons x a [] h = refl
has_roles-cons x a (y ∷ b) h = ground (arith, has_roles-cons x a b)

has_roles_self : (a : List WorkspaceRoleDocument) → has_roles a a ≡ true
has_roles_self [] = refl
has_roles_self (x ∷ a) = rw (eq_refl (role_key x), has_roles-cons x a a (has_roles_self a)) refl

pub workspace_roles_equal_refl : (a : List WorkspaceRoleDocument) → workspace_roles_equal a a ≡ true
unfolding workspace_roles_equal
workspace_roles_equal_refl a = rw (has_roles_self a) (ground arith)

-- If the test finds that `a` has the roles of `b`, it does, and it has as many.
pub workspace_roles_equal_lem :
    (a b : List WorkspaceRoleDocument) (wr : WorkspaceRoleDocument)
    → workspace_roles_equal a b ≡ true
    → has_role b wr ≡ true
    → (has_role a wr ≡ true) × (length a ≡ length b)
unfolding workspace_roles_equal
workspace_roles_equal_lem a [] wr e h = cc
workspace_roles_equal_lem [] (y ∷ b) wr e h = ground arith
workspace_roles_equal_lem (x ∷ a) (y ∷ b) wr e h = elim (Bool-cases (has_roles (x ∷ a) (y ∷ b))) [
  | inl k ↦ (has_roles_lem (x ∷ a) (y ∷ b) wr k h, ground arith)
  | inr k ↦ ground arith
]
