-- ===== src/UserUseCase/Tests.antt =====
-- The theorems on the use cases on users over the repositories in memory
use reearth_accounts.Memory.Users.{find_by_name_or_email as memory_users_find_by_name_or_email}
use reearth_accounts.Memory.Users.{save as memory_users_save}
use reearth_accounts.Memory.Users.{find_by_id as memory_users_find_by_id}
use reearth_accounts.Memory.Permittables.{find_by_user_id as memory_permittables_find_by_user_id}
use reearth_accounts.Memory.Roles.{find_by_ids as memory_roles_find_by_ids}
use reearth_accounts.Memory.Workspaces.{find_by_id as memory_workspaces_find_by_id}
use reearth_accounts.Memory.Users.{find_by_alias as memory_users_find_by_alias}
use reearth_accounts.Memory.Workspaces.{save as memory_workspaces_save}
use reearth_accounts.Workspace.Filter.{can_write as workspace_filter_can_write}
use reearth_accounts.Prelude.{◌≡◌, refl, inl, true, none, some, [], ◌∷◌, Result, ok}
use reearth_accounts.Prelude.Idx.{plain_idx}
use reearth_accounts.User.Account.{User, match_password, has_auth_provider, set_password}
use reearth_accounts.User.Password.{verify_password, new_encoded_password, validate_password_format}
use reearth_accounts.User.Samples.{pass, plain-IsEncoder}
use reearth_accounts.User.Tokens.{is_verified}
use reearth_accounts.Workspace.Member.{user_role}
use reearth_accounts.Workspace.Member.Samples.{one_owner, two_owners}
use reearth_accounts.Action.{◌>>=◌}
use reearth_accounts.Interactor.Env.{run}
use reearth_accounts.Interactor.Guard.{operator_user}
use reearth_accounts.Interactor.Samples.{workspace}
use reearth_accounts.Memory.Container.{Store}
use reearth_accounts.UserUseCase.Env.{
  run_without_operator, check_maintainer_permission, check_maintainer_role,
}
use reearth_accounts.UserUseCase.Session.{get_user_by_credentials, signing_in}
use reearth_accounts.UserUseCase.Me.{UpdateMeParam, updating_me}
use reearth_accounts.UserUseCase.Leaving.{Parted, part}
use reearth_accounts.UserUseCase.Life.{switching, deactivate_user}
use reearth_accounts.UserUseCase.SignIn.{get_user_by_credentials_lem}
use reearth_accounts.UserUseCase.Maintainers.{IsMaintainer, IsMaintainer-needed}
use reearth_accounts.UserUseCase.Removal.{IsShared, IsPartOf, part_lem}
use reearth_accounts.UserUseCase.Profile.{IsUpdated, updating_me_lem}
use reearth_accounts.UserUseCase.Samples.{env, user, store, operator, value, left}

abbrev given : Result User × Store
given = get_user_by_credentials env 5 "a@b.c" pass (store one_owner)

get_user_by_credentials_lem_example :
    (env.users.find_by_name_or_email "a@b.c" (store one_owner) ≡ ok user)
    × (match_password env.outside.encoder (some user) pass ≡ ok true)
    × (is_verified user.verification ≡ true)
unfolding get_user_by_credentials signing_in ◌>>=◌ run_without_operator match_password
    verify_password is_verified memory_users_find_by_name_or_email
get_user_by_credentials_lem_example =
    get_user_by_credentials_lem env 5 "a@b.c" pass (store one_owner) (left given) user refl

abbrev deactivated : Result User × Store
deactivated = deactivate_user env operator 5 1 (store one_owner)

IsMaintainer-needed_example : IsMaintainer env (store one_owner) operator
unfolding deactivate_user ◌>>=◌ operator_user run switching memory_users_find_by_id
    check_maintainer_permission check_maintainer_role memory_permittables_find_by_user_id
    memory_roles_find_by_ids memory_users_save
IsMaintainer-needed_example =
    IsMaintainer-needed env operator 5 1 61 "reearth|1" (some "Bob") ("maintainer" ∷ [])
      (store one_owner) (left deactivated) (value user deactivated) (inl refl)

shared : IsShared 1 (workspace two_owners)
unfolding user_role
shared = ((refl, (refl, (refl, tt))), (1, refl), refl)

part_lem_example :
    (p : Parted) × (part plain_idx.later 1 (workspace two_owners ∷ []) ≡ ok p)
    × IsPartOf plain_idx.later 1 (workspace two_owners ∷ []) p
part_lem_example = part_lem plain_idx.later 1 (workspace two_owners ∷ []) (shared, tt)

abbrev renaming : UpdateMeParam
renaming = record {
  name = some "Bea";
  email = none;
  alias = some "bea";
  photo_url = none;
  website = none;
  description = none;
  lang = none;
  theme = none;
  password = some pass;
  password_confirmation = some pass;
}

abbrev renamed : Result User × Store
renamed = updating_me env operator 5 (λ l. "") (λ s. none) 1 renaming (store one_owner)

updating_me_lem_example : IsUpdated env operator 5 renaming user (value user renamed)
unfolding updating_me ◌>>=◌ has_auth_provider set_password new_encoded_password
    validate_password_format memory_users_find_by_id memory_workspaces_find_by_id
    memory_users_find_by_alias memory_workspaces_save workspace_filter_can_write memory_users_save
updating_me_lem_example =
    updating_me_lem env operator 5 (λ l. "") (λ s. none) 1 renaming (store one_owner) (left renamed)
      user (value user renamed) plain-IsEncoder refl refl
