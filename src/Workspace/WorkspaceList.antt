-- ===== src/Workspace/WorkspaceList.antt =====
-- server/pkg/workspace/workspace_list.go. A `nil` list gives a `nil` one, as an empty list gives an
-- empty one; the two are not told apart here.
use reearth_accounts.Prelude.{
  ℕ, ◌≡◌, refl, ◌∙◌, Bool, true, false, ◌||◌, Option, none, some, List, [], ◌∷◌, str_eq,
  if◌then◌else◌, arith, Option-cases, inl, inr, ==→eq,
}
use reearth_accounts.Prelude.Dict.{Dict, lookup, insert, has_key, lookup-insert}
use reearth_accounts.Prelude.Lists.{contains, select}
use reearth_accounts.Role.{RoleType, includes}
use reearth_accounts.Role.Order.{includes_trans}
use reearth_accounts.Workspace.Member.{Member, user, integration}
use reearth_accounts.Workspace.Entity.{Workspace}

-- `IDs`
abbrev pub ids : List Workspace → List ℕ
ids [] = []
ids (t ∷ l) = t.id ∷ ids l

-- The first loop of `FilterByID`: a later workspace overwrites an earlier one with its identifier.
abbrev by_id : Dict Workspace → List Workspace → Dict Workspace
by_id d [] = d
by_id d (t ∷ l) = by_id (insert t.id t d) l

-- The second loop of `FilterByID`
abbrev pick : Dict Workspace → List ℕ → List Workspace
pick d [] = []
pick d (i ∷ is) = let rest = pick d is in elim (lookup i d) [ none ↦ rest | some t ↦ t ∷ rest ]

-- `FilterByID`
unfoldable pub filter_by_id : List Workspace → List ℕ → List Workspace
filter_by_id l is = pick (by_id [] l) is

-- `m != nil && m.Role == r`
abbrev role_is : RoleType → Option Member → Bool
role_is r none = false
role_is r (some m) = str_eq m.role r

-- `m != nil && m.Role.Includes(r)`
abbrev role_includes : RoleType → Option Member → Bool
role_includes r none = false
role_includes r (some m) = includes m.role r

module _ (is_empty : ℕ → Bool) (l : List Workspace) where
  -- `FilterByUserRole`
  unfoldable pub filter_by_user_role : ℕ → RoleType → List Workspace
  filter_by_user_role u r =
      if is_empty u || str_eq r ""
      then []
      else select (λ (t : Workspace). role_is r (user t.members u)) l

  -- `FilterByIntegrationRole`
  unfoldable pub filter_by_integration_role : ℕ → RoleType → List Workspace
  filter_by_integration_role i r =
      if is_empty i || str_eq r ""
      then []
      else select (λ (t : Workspace). role_is r (integration t.members i)) l

  -- `FilterByUserRoleIncluding`
  unfoldable pub filter_by_user_role_including : ℕ → RoleType → List Workspace
  filter_by_user_role_including u r =
      if is_empty u || str_eq r ""
      then []
      else select (λ (t : Workspace). role_includes r (user t.members u)) l

  -- `FilterByIntegrationRoleIncluding`
  unfoldable pub filter_by_integration_role_including : ℕ → RoleType → List Workspace
  filter_by_integration_role_including i r =
      if is_empty i || str_eq r ""
      then []
      else select (λ (t : Workspace). role_includes r (integration t.members i)) l

has_key-by_id :
    (i : ℕ) (d : Dict Workspace) (l : List Workspace)
    → has_key i (by_id d l) ≡ (has_key i d || contains i (ids l))
has_key-by_id i d [] = ground arith
has_key-by_id i d (t ∷ l) =
    ground (arith, has_key-by_id i (insert t.id t d) l, lookup-insert t.id i t d)

-- Every entry stands under its own identifier.
abbrev IsKeyed : Dict Workspace → Type 0
IsKeyed d = (i : ℕ) (t : Workspace) → lookup i d ≡ some t → t.id ≡ i

by_id-IsKeyed : (d : Dict Workspace) (l : List Workspace) → IsKeyed d → IsKeyed (by_id d l)
by_id-IsKeyed d [] h = h
by_id-IsKeyed d (t ∷ l) h =
    by_id-IsKeyed (insert t.id t d) l
      λ i s e. ground (arith, lookup-insert t.id i t d, h i s, ==→eq t.id i)

ids-pick :
    (d : Dict Workspace) (is : List ℕ) → IsKeyed d → ids (pick d is) ≡ select (λ i. has_key i d) is
ids-pick d [] h = refl
ids-pick d (i ∷ is) h = elim (Option-cases (lookup i d)) [
  | inl e ↦ ground (arith, ids-pick d is h)
  | inr (t, e) ↦ ground (arith, h i t e, ids-pick d is h)
]

select-eq {ℓ} :
    {A : Type ℓ} (p q : A → Bool) (xs : List A) → ((a : A) → p a ≡ q a) → select p xs ≡ select q xs
select-eq p q [] h = refl
select-eq p q (x ∷ xs) h = ground (arith, h x, select-eq p q xs h)

-- `FilterByID` gives the workspaces with the identifiers that are asked for and are in the list, in
-- the order and as often as they are asked for.
pub ids-filter_by_id :
    (l : List Workspace) (is : List ℕ)
    → ids (filter_by_id l is) ≡ select (λ i. contains i (ids l)) is
unfolding filter_by_id
ids-filter_by_id l is =
    ids-pick (by_id [] l) is (by_id-IsKeyed [] l (λ i t e. cc))
    ∙ select-eq (λ i. has_key i (by_id [] l)) (λ i. contains i (ids l)) is
        (λ i. has_key-by_id i [] l)

role_includes_mono :
    (r s : RoleType) (m : Option Member)
    → includes r s ≡ true
    → role_includes r m ≡ true
    → role_includes s m ≡ true
role_includes_mono r s none h e = cc
role_includes_mono r s (some m) h e = includes_trans m.role r s e h

contains-select_mono :
    (p q : Workspace → Bool) (w : ℕ) (l : List Workspace)
    → ((t : Workspace) → p t ≡ true → q t ≡ true)
    → contains w (ids (select p l)) ≡ true
    → contains w (ids (select q l)) ≡ true
contains-select_mono p q w [] h e = cc
contains-select_mono p q w (t ∷ l) h e = ground (arith, h t, contains-select_mono p q w l h)

-- A workspace that `FilterByUserRoleIncluding` keeps for a role it keeps for every role, other than
-- the empty text, that the first one includes.
pub filter_by_user_role_including_mono :
    (is_empty : ℕ → Bool) (l : List Workspace) (u : ℕ) (r s : RoleType) (w : ℕ)
    → includes r s ≡ true
    → str_eq s "" ≡ false
    → contains w (ids (filter_by_user_role_including is_empty l u r)) ≡ true
    → contains w (ids (filter_by_user_role_including is_empty l u s)) ≡ true
unfolding filter_by_user_role_including
filter_by_user_role_including_mono is_empty l u r s w h n e = ground (
  arith,
  contains-select_mono (λ t. role_includes r (user t.members u))
      (λ t. role_includes s (user t.members u)) w l
      (λ t. role_includes_mono r s (user t.members u) h),
)
