-- ===== src/Memory/Workspaces.antt =====
-- server/internal/infrastructure/memory/workspace.go. `earlier` is `a.Compare(b) < 0` of idx.ID.
use reearth_accounts.Prelude.{
  ℕ, String, Bool, true, not, ◌&&◌, ◌||◌, Option, none, some, List, [], ◌∷◌, str_eq, Error, Result,
  ok, err, not_found, operation_denied, already_exists, if◌then◌else◌,
}
use reearth_accounts.Prelude.Dict.{Dict, lookup, has_key, insert, erase}
use reearth_accounts.Prelude.Idx.{Idx}
use reearth_accounts.Prelude.Lists.{some_where, length}
use reearth_accounts.Workspace.Entity.{Workspace, is_personal}
use reearth_accounts.Workspace.Member.{has_user, has_integration, erase_all}
use reearth_accounts.Workspace.WorkspaceList.{ids}
use reearth_accounts.Role.{contains_text}
use reearth_accounts.Workspace.Filter.{WorkspaceFilter, merge, can_read, can_write}
use reearth_accounts.AdminUser.Memory.{Pagination, PageInfo, pages_of}
use reearth_accounts.Memory.Texts.{
  Texts, first_value, all_values, listed_or_not_found, found_or_not_found, unless_failing,
  fits_status, keyword_of,
}

pub record Workspaces : Type 0 where
  pub stored : Dict Workspace
  pub f : WorkspaceFilter
  pub failure : Option Error

-- `Filtered`
unfoldable pub filtered : Workspaces → WorkspaceFilter → Workspaces
unfolding merge
filtered r f = record r { f = merge r.f f }

module _ (earlier : ℕ → ℕ → Bool) where
  abbrev place : Workspace → List Workspace → List Workspace
  place w [] = w ∷ []
  place w (v ∷ vs) = let rest = place w vs in if earlier v.id w.id then v ∷ rest else w ∷ v ∷ vs

  -- `sort.SliceStable` and `slices.SortFunc` by the identifier, as an insertion sort
  abbrev pub by_id : List Workspace → List Workspace
  by_id [] = []
  by_id (w ∷ ws) = place w (by_id ws)

-- The test of `FindAll`
unfoldable pub is_listed :
    Texts → Idx → WorkspaceFilter → Option Bool → String → String → ℕ → Workspace → Bool
unfolding can_read
is_listed t x f personal status kw id w =
    can_read x f id
    && elim personal [ none ↦ true | some p ↦ if p then is_personal w else not (is_personal w) ]
    && fits_status status w.deleted_at
    && (str_eq kw "" || t.has_text (t.lower w.name) kw || t.has_text (t.lower w.alias) kw)

-- The page of `FindByUserWithPagination`
abbrev pub page_of : List Workspace → Result (List Workspace × PageInfo)
page_of [] = err not_found
page_of (w ∷ ws) =
    ok (w ∷ ws, record { total_count = length (w ∷ ws); has_next = true; has_prev = true })

-- The second loop of `SaveAll`
abbrev pub insert_all : List Workspace → Dict Workspace → Dict Workspace
insert_all [] d = d
insert_all (w ∷ ws) d = insert_all ws (insert w.id w d)

module _ (x : Idx) (r : Workspaces) where
  -- `FindAll`; whether the pagination is by a cursor is tested before the list is made.
  unfoldable pub find_all :
      Texts
      → (ℕ → ℕ → Bool)
      → Option String
      → Option Bool
      → String
      → Option Pagination
      → Bool
      → Result (List Workspace × PageInfo)
  unfolding is_listed
  find_all t earlier keyword personal status pagination exclude_personal =
      unless_failing r.failure (
        pages_of
          (by_id earlier
            (all_values (is_listed t x r.f personal status (keyword_of t keyword)) r.stored))
          pagination)

  -- `FindByUser`
  unfoldable pub find_by_user : Texts → ℕ → Result (List Workspace)
  find_by_user t u =
      unless_failing r.failure
        (listed_or_not_found t (all_values (λ k (w : Workspace). has_user w.members u) r.stored))

  -- `FindByUserWithPagination`, which reads nothing of the pagination
  unfoldable pub find_by_user_with_pagination : ℕ → Result (List Workspace × PageInfo)
  find_by_user_with_pagination u =
      unless_failing r.failure
        (page_of (all_values (λ k (w : Workspace). has_user w.members u) r.stored))

  -- `FindByIntegration`
  unfoldable pub find_by_integration : Texts → ℕ → Result (List Workspace)
  find_by_integration t i = unless_failing r.failure (
      listed_or_not_found t
        (all_values (λ k (w : Workspace). has_integration w.members i) r.stored))

  -- `FindByIntegrations`
  unfoldable pub find_by_integrations : (ℕ → ℕ → Bool) → List ℕ → Result (List Workspace)
  find_by_integrations earlier [] = unless_failing r.failure (ok [])
  find_by_integrations earlier (i ∷ is) = unless_failing r.failure (
      ok (
        by_id earlier (
          all_values (λ k (w : Workspace). some_where (λ j. has_integration w.members j) (i ∷ is))
            r.stored)))

  abbrev all_readable : List ℕ → Bool
  all_readable [] = true
  all_readable (id ∷ ids) = can_read x r.f id && all_readable ids

  -- `FindByIDs`
  unfoldable pub find_by_ids : (ℕ → ℕ → Bool) → List ℕ → Result (List Workspace)
  find_by_ids earlier ids = unless_failing r.failure (
      if all_readable ids
      then ok (by_id earlier (all_values (λ k (w : Workspace). x.has ids k) r.stored))
      else err not_found)

  -- `FindByID`, which does not ask the filter
  unfoldable pub find_by_id : ℕ → Result Workspace
  find_by_id id = unless_failing r.failure (found_or_not_found (lookup id r.stored))

  -- `FindByName`
  unfoldable pub find_by_name : String → Result Workspace
  find_by_name name = unless_failing r.failure (
      if str_eq name ""
      then err not_found
      else elim (first_value (λ (w : Workspace). str_eq w.name name) r.stored) [
        | none ↦ err not_found
        | some w ↦ if can_read x r.f w.id then ok w else err not_found
      ])

  -- `FindByAlias`
  unfoldable pub find_by_alias : String → Result Workspace
  find_by_alias alias = unless_failing r.failure (
      if str_eq alias ""
      then err not_found
      else found_or_not_found (first_value (λ (w : Workspace). str_eq w.alias alias) r.stored))

  -- `FindByAliases`
  unfoldable pub find_by_aliases : (ℕ → ℕ → Bool) → List String → Result (List Workspace)
  find_by_aliases earlier [] = unless_failing r.failure (ok [])
  find_by_aliases earlier (a ∷ aliases) = unless_failing r.failure (
      ok (
        by_id earlier
          (all_values (λ k (w : Workspace). contains_text w.alias (a ∷ aliases)) r.stored)))

  -- What a write gives: the error that stops it, or the store with the values changed.
  abbrev written : Bool → Dict Workspace → Result (Unit {0}) × Workspaces
  written allowed d = elim r.failure [
    | some e ↦ (err e, r)
    | none ↦ if allowed then (ok tt, record r { stored = d }) else (err operation_denied, r)
  ]

  -- `Create`, which does not ask the filter
  unfoldable pub create : Workspace → Result (Unit {0}) × Workspaces
  create w = elim r.failure [
    | some e ↦ (err e, r)
    | none ↦
        if has_key w.id r.stored
        then (err already_exists, r)
        else (ok tt, record r { stored = insert w.id w r.stored })
  ]

  -- `Save`
  unfoldable pub save : Workspace → Result (Unit {0}) × Workspaces
  save w = written (can_write x r.f w.id) (insert w.id w r.stored)

  abbrev all_writable : List ℕ → Bool
  all_writable [] = true
  all_writable (id ∷ ids) = can_write x r.f id && all_writable ids

  -- `SaveAll`
  unfoldable pub save_all : List Workspace → Result (Unit {0}) × Workspaces
  save_all ws = written (all_writable (ids ws)) (insert_all ws r.stored)

  -- `Remove`
  unfoldable pub remove : ℕ → Result (Unit {0}) × Workspaces
  remove id = written (can_write x r.f id) (erase id r.stored)

  -- `RemoveAll`
  unfoldable pub remove_all : List ℕ → Result (Unit {0}) × Workspaces
  remove_all is = written (all_writable is) (erase_all is r.stored)
