-- ===== src/Interactor/EditTests.antt =====
-- The theorems on updates, on reading and on permissions over a concrete store
use reearth_accounts.Action.{◌>>=◌ as action_◌>>=◌}
use reearth_accounts.Interactor.Permission.{check_with as interactor_permission_check_with}
use reearth_accounts.Interactor.Permission.{
  check_workspace_permission as interactor_permission_check_workspace_permission,
}
use reearth_accounts.Prelude.{
  ◌≡◌, refl, true, some, none, List, [], ◌∷◌, str_eq, Result, ok, err, not_found,
}
use reearth_accounts.Permittable.{Permittable}
use reearth_accounts.Workspace.Entity.{Workspace}
use reearth_accounts.Workspace.Member.Samples.{one_owner}
use reearth_accounts.Interactor.Samples.{Store, env, owner_of_10, workspace, store, left, result}
use reearth_accounts.Interactor.Reading.{Reads}
use reearth_accounts.Interactor.Updating.{Texts, UpdateParam, updating_workspace}
use reearth_accounts.Interactor.Edits.{IsEdited, updating_workspace_lem}
use reearth_accounts.Interactor.Permission.{
  PermissionEnv, PermissionParam, Gateway, check_permission_by_service,
}
use reearth_accounts.Interactor.Permission.Allowed.{IsAllowedWith, check_permission_allowed}

abbrev reads : Reads Store
reads = record {
  find_by_ids = λ is s. ok [];
  find_by_name = λ n s. err not_found;
  find_by_alias = λ a s. err not_found;
  find_by_user = λ u s. ok (s.workspace ∷ []);
  find_by_user_with_pagination = λ u o s. ok ([], 0);
  find_all = λ k status o e s. ok ([], 0);
  find_roles = λ is s. ok (record { id = 50; name = "owner"; updated_at = 1 } ∷ []);
}

abbrev texts : Texts
texts = record {
  trim = λ s. s;
  lower = λ s. s;
  has_prefix = λ s t. str_eq s t;
  id_text = λ i. "10";
}

abbrev change : UpdateParam
change = record {
  id = 10;
  name = some "team";
  alias = some "crew";
  description = some "d";
  website = none;
  photo_url = some "p.png";
}

abbrev updated : Result Workspace × Store
updated = updating_workspace env reads texts (owner_of_10 1) 5 1 change (store one_owner)

updating_workspace_lem_example :
    IsEdited env reads texts
      (owner_of_10 1)
      5
      (store one_owner)
      1
      change
      (workspace one_owner)
      (result one_owner updated)
unfolding updating_workspace action_◌>>=◌
updating_workspace_lem_example =
    updating_workspace_lem env reads texts (owner_of_10 1) 5 1 change (store one_owner)
      (left updated) (workspace one_owner) (result one_owner updated) refl refl

abbrev listed : List Workspace
listed = workspace one_owner ∷ record (workspace one_owner) { id = 11 } ∷ []

abbrev permittable : Permittable
permittable = record {
  id = 60;
  user_id = 1;
  role_ids = 50 ∷ [];
  workspace_roles = [];
  updated_at = 1;
}

abbrev service : PermissionEnv Store
service = record {
  gateway = some (λ user roles kind id action s. ok (some ((λ a. some true) ∷ [])));
  find_permittable = λ u s. ok permittable;
  find_by_alias = λ a s. ok s.workspace;
  find_roles = reads.find_roles;
  id_text = λ i. "1";
}

abbrev question : PermissionParam
question = record { service = "s"; resource = "workspace"; action = "edit"; workspace_alias = "w" }

check_permission_allowed_example :
    (gateway : Gateway Store) × (p : Permittable) × (service.gateway ≡ some gateway)
    × (service.find_permittable 1 (store one_owner) ≡ ok p)
    × IsAllowedWith service 1 question (store one_owner) gateway p
unfolding check_permission_by_service interactor_permission_check_with
    interactor_permission_check_workspace_permission
check_permission_allowed_example =
    check_permission_allowed service 1 question (store one_owner) refl
