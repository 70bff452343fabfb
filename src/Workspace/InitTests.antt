-- ===== src/Workspace/InitTests.antt =====
-- The theorem on `Init` at a concrete newcomer
use reearth_accounts.User.Builder.{build as user_builder_build}
use reearth_accounts.User.Builder.{with_auths as user_builder_with_auths}
use reearth_accounts.User.Account.{add_auth as user_account_add_auth}
use reearth_accounts.User.Account.{set_password as user_account_set_password}
use reearth_accounts.User.Password.{new_encoded_password as user_password_new_encoded_password}
use reearth_accounts.User.Password.{
  validate_password_format as user_password_validate_password_format,
}
use reearth_accounts.User.Account.{update_email as user_account_update_email}
use reearth_accounts.Workspace.Builder.{build as workspace_builder_build}
use reearth_accounts.Prelude.{Result, ok, err}
use reearth_accounts.User.Account.{User}
use reearth_accounts.Workspace.Entity.{Workspace}
use reearth_accounts.Workspace.Init.{init}
use reearth_accounts.Workspace.Member.Samples.{one_owner}
use reearth_accounts.Interactor.Samples.{workspace}
use reearth_accounts.UserUseCase.Samples.{user, sign_up_env, newcomer}

abbrev made : Result (User × Workspace)
made = init sign_up_env.texts newcomer 2 20 5 6

abbrev value : Result (User × Workspace) → User × Workspace
value (ok x) = x
value (err e) = (user, workspace one_owner)
