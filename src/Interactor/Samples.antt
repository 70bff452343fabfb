-- ===== src/Interactor/Samples.antt =====
-- A concrete store for the tests: one workspace and the permittables; every role is found.
use reearth_accounts.Prelude.{
  ℕ, ◌+◌, refl, Bool, true, false, some, none, [], ◌∷◌, ◌==◌, if◌then◌else◌, Result, ok, err,
  not_found,
}
use reearth_accounts.Prelude.Idx.{plain_idx}
use reearth_accounts.Prelude.Dict.{Dict, lookup}
use reearth_accounts.Permittable.{Permittable}
use reearth_accounts.Workspace.Entity.{Workspace, new_metadata}
use reearth_accounts.Workspace.Member.{Members}
use reearth_accounts.Workspace.Operator.{Operator}
use reearth_accounts.Interactor.Env.{Repos, Env, IsTransaction}

pub record Store : Type 0 where
  pub workspace : Workspace
  pub permittables : Dict Permittable

abbrev pub workspace_found : ℕ → Store → Result Workspace
workspace_found id s = if s.workspace.id == id then ok s.workspace else err not_found

abbrev pub permittable_found : ℕ → Store → Result Permittable
permittable_found u s = elim (lookup u s.permittables) [ none ↦ err not_found | some p ↦ ok p ]

abbrev pub repos : Repos Store
repos = record {
  find_workspace = workspace_found;
  create_workspace = λ w s. (ok tt, record s { workspace = w });
  save_workspace = λ w s. (ok tt, record s { workspace = w });
  remove_workspace = λ id s. (ok tt, s);
  find_permittable = permittable_found;
  find_permittables = λ us s. ok [];
  save_permittable = λ p s. (ok tt, record s { permittables = (p.user_id, p) ∷ s.permittables });
  save_permittables = λ ps s. (ok tt, s);
  find_role = λ name s. ok (record { id = 50; name = name; updated_at = 1 });
  save_role = λ r s. (ok tt, s);
  fetch_users = λ us s. ok [];
}

abbrev pub settle : Bool → Store → Store → Store
settle true s s' = s'
settle false s s' = s

abbrev pub env : Env Store
env = record {
  idx = plain_idx;
  repos = repos;
  cerbos = none;
  enforce_member_count = none;
  mock_auth = false;
  settle = settle;
}

pub settle-IsTransaction : IsTransaction settle
settle-IsTransaction = record { commit = λ s s'. refl; rollback = λ s s'. refl }

-- A user who owns workspace 10
abbrev pub owner_of_10 : ℕ → Operator
owner_of_10 u = record {
  user = some u;
  readable_workspaces = none;
  writable_workspaces = none;
  owning_workspaces = some (10 ∷ []);
  maintainable_workspaces = none;
  default_policy = none;
}

abbrev pub stranger : Operator
stranger = record (owner_of_10 9) { owning_workspaces = none }

abbrev pub workspace : Members → Workspace
workspace members = record {
  id = 10;
  name = "w";
  alias = "w";
  email = "";
  metadata = new_metadata;
  members = members;
  policy = none;
  created_at = none;
  created_by = none;
  updated_at = 3;
  deleted_at = none;
}

abbrev pub store : Members → Store
store members = record { workspace = workspace members; permittables = [] }

abbrev pub fresh : ℕ → ℕ
fresh n = 100 + n

-- What a call gives, where it gives something
abbrev pub value : {A : Type 0} → A → Result A × Store → A
value a (ok b, s) = b
value a (err e, s) = a

abbrev pub left : {A : Type 0} → Result A × Store → Store
left (r, s) = s

abbrev pub result : Members → Result Workspace × Store → Workspace
result members r = value (workspace members) r
