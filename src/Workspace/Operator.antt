-- ===== src/Workspace/Operator.antt =====
-- server/pkg/workspace/operator.go: what a user may do with which workspaces. The lists are Go
-- slices, where `nil` is told from empty, because filter.go does so.
use reearth_accounts.Prelude.{
  ℕ, String, ◌≡◌, sym, ◌∙◌, ap, Bool, ◌||◌, Option, none, some, List, [], ◌∷◌, str_eq, ltb,
  if◌then◌else◌,
}
use reearth_accounts.Prelude.Idx.{Idx, IsIdx, intersect-singleton}
use reearth_accounts.Prelude.Lists.{length, contains}
use reearth_accounts.Prelude.Slices.{Slice, items, append, contains-items-append}
use reearth_accounts.Role.{RoleType, owner, maintainer, writer, reader}

pub record Operator : Type 0 where
  pub user : Option ℕ
  pub readable_workspaces : Slice ℕ
  pub writable_workspaces : Slice ℕ
  pub owning_workspaces : Slice ℕ
  pub maintainable_workspaces : Slice ℕ
  pub default_policy : Option String

-- `Workspaces`, on a pointer that may be nil
unfoldable pub workspaces : Option Operator → RoleType → Slice ℕ
workspaces none r = none
workspaces (some o) r =
    if str_eq r reader
    then o.readable_workspaces
    else if str_eq r writer
    then o.writable_workspaces
    else if str_eq r maintainer
    then o.maintainable_workspaces
    else if str_eq r owner
    then o.owning_workspaces
    else none

-- `AllOwningWorkspaces`
abbrev pub all_owning : Operator → Slice ℕ
all_owning o = o.owning_workspaces

-- `AllMaintainingWorkspaces`
abbrev pub all_maintaining : Operator → Slice ℕ
all_maintaining o = append o.maintainable_workspaces (all_owning o)

-- `AllWritableWorkspaces`
abbrev pub all_writable : Operator → Slice ℕ
all_writable o = append o.writable_workspaces (all_maintaining o)

-- `AllReadableWorkspaces`
abbrev pub all_readable : Operator → Slice ℕ
all_readable o = append o.readable_workspaces (all_writable o)

module _ (x : Idx) where
  abbrev pub meets : Slice ℕ → List ℕ → Bool
  meets s ws = ltb 0 (length (x.intersect (items s) ws))

  -- `IsReadableWorkspace`
  abbrev pub is_readable : Operator → List ℕ → Bool
  is_readable o ws = meets (all_readable o) ws

  -- `IsWritableWorkspace`
  abbrev pub is_writable : Operator → List ℕ → Bool
  is_writable o ws = meets (all_writable o) ws

  -- `IsMaintainingWorkspace`
  abbrev pub is_maintaining : Operator → List ℕ → Bool
  is_maintaining o ws = meets (all_maintaining o) ws

  -- `IsOwningWorkspace`
  abbrev pub is_owning : Operator → List ℕ → Bool
  is_owning o ws = meets (all_owning o) ws

-- `AddNewWorkspace`
abbrev pub add_new_workspace : Operator → ℕ → Operator
add_new_workspace o ws = record o {
  owning_workspaces = append o.owning_workspaces (some (ws ∷ []));
}

-- `Policy`
unfoldable pub policy : Operator → Option String → Option String
policy o none = elim o.default_policy [
  | none ↦ none
  | some d ↦ if str_eq d "" then none else some d
]
policy o (some p) = if str_eq p "" then none else some p

-- A single workspace may be read, written, maintained or owned exactly when it is in the list of
-- that right or of a stronger one.
pub rights_lem :
    (x : Idx) (laws : IsIdx x) (o : Operator) (w : ℕ)
    → (is_owning x o (w ∷ []) ≡ contains w (items o.owning_workspaces))
      × (is_maintaining x o (w ∷ [])
          ≡ (contains w (items o.maintainable_workspaces) || is_owning x o (w ∷ [])))
      × (is_writable x o (w ∷ [])
          ≡ (contains w (items o.writable_workspaces) || is_maintaining x o (w ∷ [])))
      × (is_readable x o (w ∷ [])
          ≡ (contains w (items o.readable_workspaces) || is_writable x o (w ∷ [])))
rights_lem x laws o w = (
  on o.owning_workspaces,
  step o.maintainable_workspaces (all_owning o),
  step o.writable_workspaces (all_maintaining o),
  step o.readable_workspaces (all_writable o),
)
  where
    on : (s : Slice ℕ) → meets x s (w ∷ []) ≡ contains w (items s)
    on s = intersect-singleton x laws (items s) w

    step :
        (s t : Slice ℕ)
        → meets x (append s t) (w ∷ []) ≡ (contains w (items s) || meets x t (w ∷ []))
    step s t =
        on (append s t)
        ∙ contains-items-append w s t
        ∙ ap (λ b. contains w (items s) || b) (sym (on t))

-- The operator who has made a workspace owns it, and has every other right as before.
pub add_new_workspace_lem :
    (x : Idx) (laws : IsIdx x) (o : Operator) (w v : ℕ)
    → is_owning x (add_new_workspace o w) (v ∷ []) ≡ (is_owning x o (v ∷ []) || contains v (w ∷ []))
add_new_workspace_lem x laws o w v =
    intersect-singleton x laws (items (append o.owning_workspaces (some (w ∷ [])))) v
    ∙ contains-items-append v o.owning_workspaces (some (w ∷ []))
    ∙ ap (λ b. b || contains v (w ∷ []))
        (sym (intersect-singleton x laws (items o.owning_workspaces) v))
