-- ===== src/Interactor/Reading.antt =====
-- server/internal/usecase/interactor/workspace.go: the reading use cases, and filterWorkspaces.
-- `now` stands for the readings of the clock in one call.
use reearth_accounts.Prelude.{
  ℕ, ◌≡◌, refl, ◌∙◌, Bool-cases, inl, inr, String, Bool, true, false, Option, none, some, List, [],
  ◌∷◌, str_eq, ltb, Result, ok, err, too_many_workspace_ids, if◌then◌else◌, arith,
  ◌>>=◌ as and_then,
}
use reearth_accounts.Prelude.Idx.{Idx}
use reearth_accounts.Prelude.Lists.{length, select}
use reearth_accounts.Role.{Role}
use reearth_accounts.Pagination.{Offset, to_pagination}
use reearth_accounts.Workspace.Entity.{Workspace, set_policy}
use reearth_accounts.Workspace.WorkspaceList.{ids}
use reearth_accounts.Workspace.Operator.{Operator, is_readable}
use reearth_accounts.Interactor.Env.{Env}

-- `maxFetchWorkspaceIDs`
abbrev pub max_fetch_workspace_ids : ℕ
max_fetch_workspace_ids = 100

-- The methods of `workspace.Repo` and `role.Repo` that only these use cases call; a page comes with
-- the number of all its workspaces.
pub record Reads (S : Type 0) : Type 0 where
  pub find_by_ids : List ℕ → S → Result (List Workspace)
  pub find_by_name : String → S → Result Workspace
  pub find_by_alias : String → S → Result Workspace
  pub find_by_user : ℕ → S → Result (List Workspace)
  pub find_by_user_with_pagination : ℕ → Offset → S → Result (List Workspace × ℕ)
  pub find_all : Option String → String → Offset → Bool → S → Result (List Workspace × ℕ)
  pub find_roles : List ℕ → S → Result (List Role)

-- The last loop of filterWorkspaces
abbrev pub with_default_policy :
    Option String → ℕ → List (Option Workspace) → List (Option Workspace)
with_default_policy d now [] = []
with_default_policy none now (w ∷ ws) = w ∷ with_default_policy none now ws
with_default_policy (some d) now (none ∷ ws) = none ∷ with_default_policy (some d) now ws
with_default_policy (some d) now (some w ∷ ws) =
    elim w.policy [ none ↦ some (set_policy w (some d) now) | some p ↦ some w ]
    ∷ with_default_policy (some d) now ws

-- The first loop of filterWorkspaces
abbrev pub hide : Idx → Operator → List (Option Workspace) → List (Option Workspace)
hide x op [] = []
hide x op (none ∷ ws) = none ∷ hide x op ws
hide x op (some w ∷ ws) = (if is_readable x op (w.id ∷ []) then some w else none) ∷ hide x op ws

abbrev pub omit : List (Option Workspace) → List (Option Workspace)
omit [] = []
omit (none ∷ ws) = omit ws
omit (some w ∷ ws) = some w ∷ omit ws

abbrev pub nothing_in_place : List (Option Workspace) → List (Option Workspace)
nothing_in_place [] = []
nothing_in_place (w ∷ ws) = none ∷ nothing_in_place ws

-- filterWorkspaces, on a list that came without an error
unfoldable pub filter_workspaces :
    Idx → ℕ → List (Option Workspace) → Option Operator → Bool → Bool → List (Option Workspace)
filter_workspaces x now ws none omit_nil policy = if omit_nil then [] else nothing_in_place ws
filter_workspaces x now ws (some op) omit_nil policy =
    let hidden = hide x op ws in
    let kept = if omit_nil then omit hidden else hidden in
    if policy then with_default_policy op.default_policy now kept else kept

abbrev pub all_some : List Workspace → List (Option Workspace)
all_some [] = []
all_some (w ∷ ws) = some w ∷ all_some ws

module _ {S : Type 0} (env : Env S) (r : Reads S) where
  -- `Fetch`
  unfoldable pub fetch : List ℕ → S → Result (List Workspace)
  fetch ids s =
      let found = r.find_by_ids ids s in
      if ltb max_fetch_workspace_ids (length ids) then err too_many_workspace_ids else found

  -- `FetchByID`
  abbrev pub fetch_by_id : ℕ → S → Result Workspace
  fetch_by_id id s = env.repos.find_workspace id s

  -- `FetchByName`
  abbrev pub fetch_by_name : String → S → Result Workspace
  fetch_by_name name s = r.find_by_name name s

  -- `FetchByAlias`
  abbrev pub fetch_by_alias : String → S → Result Workspace
  fetch_by_alias alias s = r.find_by_alias alias s

  -- `FindByUser`
  unfoldable pub find_by_user : ℕ → ℕ → Option Operator → S → Result (List (Option Workspace))
  unfolding filter_workspaces
  find_by_user now id op s =
      and_then (r.find_by_user id s)
        (λ ws. ok (filter_workspaces env.idx now (all_some ws) op true true))

  -- `FetchByUserWithPagination`
  abbrev pub fetch_by_user_with_pagination : ℕ → ℕ → ℕ → S → Result (List Workspace × ℕ)
  fetch_by_user_with_pagination user page size s =
      r.find_by_user_with_pagination user (to_pagination page size) s

  -- `FindAll` behind its check; an empty status asks for the active ones.
  unfoldable pub all_workspaces :
      Option String → String → ℕ → ℕ → Bool → S → Result (List Workspace × ℕ)
  all_workspaces keyword status page size exclude_personal s =
      r.find_all keyword (if str_eq status "" then "active" else status) (to_pagination page size)
        exclude_personal s

-- The identifiers of what is not nil
abbrev pub present_ids : List (Option Workspace) → List ℕ
present_ids [] = []
present_ids (none ∷ ws) = present_ids ws
present_ids (some w ∷ ws) = w.id ∷ present_ids ws

module _ (x : Idx) (op : Operator) where
  -- The operator may read the workspace.
  abbrev pub readable : Workspace → Bool
  readable w = is_readable x op (w.id ∷ [])

  omit-hide :
      (ws : List Workspace)
      → (present_ids (omit (hide x op (all_some ws))) ≡ ids (select readable ws))
        × (length (omit (hide x op (all_some ws))) ≡ length (select readable ws))
  omit-hide [] = (refl, refl)
  omit-hide (w ∷ ws) = elim (Bool-cases (is_readable x op (w.id ∷ []))) [
    | inl may ↦ rw may (ground (arith, omit-hide ws))
    | inr may_not ↦ rw may_not (ground (arith, omit-hide ws))
  ]

policy_kept :
    (d : Option String) (now : ℕ) (ws : List (Option Workspace))
    → (present_ids (with_default_policy d now ws) ≡ present_ids ws)
      × (length (with_default_policy d now ws) ≡ length ws)
policy_kept d now [] = (refl, refl)
policy_kept none now (none ∷ ws) = ground (arith, policy_kept none now ws)
policy_kept none now (some w ∷ ws) = ground (arith, policy_kept none now ws)
policy_kept (some d) now (none ∷ ws) = ground (arith, policy_kept (some d) now ws)
policy_kept (some d) now (some w ∷ ws) = ground (arith, policy_kept (some d) now ws)

-- What filterWorkspaces leaves of a list for an operator, where nothing nil is wanted: the workspaces
-- that the operator may read, all of them, in their order, and no nil; without an operator, nothing.
pub filter_workspaces_lem :
    (x : Idx) (op : Operator) (now : ℕ) (ws : List Workspace) (policy : Bool)
    → (present_ids (filter_workspaces x now (all_some ws) (some op) true policy)
        ≡ ids (select (readable x op) ws))
      × (length (filter_workspaces x now (all_some ws) (some op) true policy)
          ≡ length (select (readable x op) ws))
      × (filter_workspaces x now (all_some ws) none true policy ≡ [])
unfolding filter_workspaces
filter_workspaces_lem x op now ws policy =
    let (same, long) = omit-hide x op ws in
    let (kept, as_long) = policy_kept op.default_policy now (omit (hide x op (all_some ws))) in
    elim policy
      as (λ b.
        (present_ids (filter_workspaces x now (all_some ws) (some op) true b)
          ≡ ids (select (readable x op) ws))
        × (length (filter_workspaces x now (all_some ws) (some op) true b)
            ≡ length (select (readable x op) ws))
        × (filter_workspaces x now (all_some ws) none true b ≡ [])) [
          | true ↦ (kept ∙ same, as_long ∙ long, refl)
          | false ↦ (same, long, refl)
        ]
