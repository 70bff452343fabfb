-- ===== src/UserUseCase/NewcomerTests.antt =====
-- The theorems on sign-ups and on failures over the repositories in memory
use reearth_accounts.Memory.Users.{find_by_email as memory_users_find_by_email}
use reearth_accounts.Memory.Users.{create as memory_users_create}
use reearth_accounts.Memory.Workspaces.{save as memory_workspaces_save}
use reearth_accounts.Workspace.Filter.{can_write as workspace_filter_can_write}
use reearth_accounts.Memory.Roles.{find_by_name as memory_roles_find_by_name}
use reearth_accounts.Memory.Users.{find_by_sub as memory_users_find_by_sub}
use reearth_accounts.Prelude.{◌≡◌, refl, ◌⊎◌, false, none, some, Result}
use reearth_accounts.User.Auth.{auth_from}
use reearth_accounts.User.Account.{
  User, contain_auth, add_auth, set_password, update_email, lang_from,
}
use reearth_accounts.User.Builder.{build as build_user, with_auths}
use reearth_accounts.User.Password.{new_encoded_password, validate_password_format}
use reearth_accounts.Workspace.Builder.{build as build_workspace}
use reearth_accounts.Workspace.Init.{init}
use reearth_accounts.Workspace.Member.Samples.{one_owner}
use reearth_accounts.Permittable.{build as build_permittable}
use reearth_accounts.Action.{◌>>=◌}
use reearth_accounts.Memory.Container.{Store}
use reearth_accounts.UserUseCase.Env.{run_without_operator}
use reearth_accounts.UserUseCase.Me.{UpdateMeParam}
use reearth_accounts.UserUseCase.SignUp.{
  SignupParam, signup, signing_up, verify_signup_secret, made, granting, find_or_create_role,
}
use reearth_accounts.UserUseCase.Sso.{SsoParam, sync_sso_user, syncing, synced}
use reearth_accounts.UserUseCase.Newcomers.{IsNewUser, IsSynced, signup_lem, sync_sso_user_lem}
use reearth_accounts.UserUseCase.Samples.{user, store, sign_up_env, fresh, newcomer, value, left}

abbrev nothing : UpdateMeParam
nothing = record {
  name = none;
  email = none;
  alias = none;
  photo_url = none;
  website = none;
  description = none;
  lang = none;
  theme = none;
  password = none;
  password_confirmation = none;
}

abbrev asking : SignupParam
asking = record { secret = some "s"; init_params = newcomer; mock_auth = false }

abbrev signed_up : Result User × Store
signed_up = signup sign_up_env 5 fresh asking (store one_owner)

signup_lem_example :
    IsNewUser sign_up_env 5 fresh (store one_owner) asking (value user signed_up)
    × ((sign_up_env.signup_secret ≡ "") ⊎ (asking.secret ≡ some sign_up_env.signup_secret))
unfolding signup signing_up verify_signup_secret made granting find_or_create_role ◌>>=◌
    run_without_operator memory_users_find_by_email init build_user with_auths add_auth set_password
    new_encoded_password validate_password_format update_email build_workspace memory_users_create
    memory_workspaces_save workspace_filter_can_write memory_roles_find_by_name build_permittable
signup_lem_example =
    signup_lem sign_up_env 5 fresh asking (store one_owner) (left signed_up) (value user signed_up)
      refl

abbrev by_sub : SsoParam
by_sub = record { sub = "g|7"; init_params = record newcomer { password = none } }

abbrev synced_user : Result User × Store
synced_user = sync_sso_user sign_up_env 5 fresh by_sub (store one_owner)

sync_sso_user_lem_example :
    IsSynced sign_up_env 5 fresh (store one_owner) by_sub (value user synced_user)
unfolding sync_sso_user run_without_operator syncing ◌>>=◌ memory_users_find_by_sub synced
    memory_users_find_by_email made init build_user with_auths add_auth update_email build_workspace
    memory_users_create memory_workspaces_save workspace_filter_can_write granting build_permittable
    contain_auth lang_from set_password auth_from new_encoded_password validate_password_format
    memory_roles_find_by_name
sync_sso_user_lem_example =
    sync_sso_user_lem sign_up_env 5 fresh by_sub (store one_owner) (left synced_user)
      (value user synced_user) refl
