-- ===== src/Memory/Container.antt =====
-- server/internal/infrastructure/memory/container.go: the repositories in memory as the repositories
-- of the use cases. `split` is what `strings.SplitN(sub, "|", 2)` gives.
use reearth_accounts.Prelude.{String, Option, none, some, List, [], ◌∷◌, Result, ok, err}
use reearth_accounts.Prelude.Idx.{Idx}
use reearth_accounts.User.Account.{User}
use reearth_accounts.Workspace.Filter.{WorkspaceFilter}
use reearth_accounts.Interactor.Env.{Repos}
use reearth_accounts.UserUseCase.Env.{UserRepos}
use reearth_accounts.UserUseCase.Query.{Source, fetch_by_id}
use reearth_accounts.Memory.Texts.{Texts}
use reearth_accounts.Memory.Users as Us
use reearth_accounts.Memory.Workspaces as Ws
use reearth_accounts.Memory.Permittables as Ps
use reearth_accounts.Memory.Roles as Rs

pub record Store : Type 0 where
  pub users : Us.Users
  pub workspaces : Ws.Workspaces
  pub permittables : Ps.Permittables
  pub roles : Rs.Roles

-- `New`
abbrev pub new : WorkspaceFilter → Store
new f = record {
  users = record { stored = []; failure = none };
  workspaces = record { stored = []; f = f; failure = none };
  permittables = [];
  roles = [];
}

abbrev pub put_users : {A : Type 0} → Store → Result A × Us.Users → Result A × Store
put_users s (r, users) = (r, record s { users = users })

abbrev pub put_workspaces : {A : Type 0} → Store → Result A × Ws.Workspaces → Result A × Store
put_workspaces s (r, workspaces) = (r, record s { workspaces = workspaces })

abbrev all_some : List User → List (Option User)
all_some [] = []
all_some (u ∷ us) = some u ∷ all_some us

abbrev all_some_of : Result (List User) → Result (List (Option User))
all_some_of (err e) = err e
all_some_of (ok us) = ok (all_some us)

module _ (t : Texts) (x : Idx) (split : String → List String) where
  abbrev pub source : Store → Source
  source s = record {
    find_by_ids = λ ids. all_some_of (Us.find_by_ids s.users x ids);
    find_by_sub = λ sub. Us.find_by_sub s.users split sub;
    find_by_name_or_email = λ given. Us.find_by_name_or_email s.users given;
    search_by_keyword = λ keyword. Us.search_by_keyword s.users t keyword;
    find_by_alias = λ alias. Us.find_by_alias s.users alias;
    find_by_name_or_alias = λ given. Us.find_by_name_or_alias s.users given;
  }

  abbrev pub repos : Repos Store
  repos = record {
    find_workspace = λ id s. Ws.find_by_id x s.workspaces id;
    create_workspace = λ w s. put_workspaces s (Ws.create x s.workspaces w);
    save_workspace = λ w s. put_workspaces s (Ws.save x s.workspaces w);
    remove_workspace = λ id s. put_workspaces s (Ws.remove x s.workspaces id);
    find_permittable = λ user s. Ps.find_by_user_id s.permittables user;
    find_permittables = λ users s. Ps.find_by_user_ids s.permittables users;
    save_permittable = λ p s. (ok tt, record s { permittables = Ps.save s.permittables p });
    save_permittables = λ ps s. (ok tt, record s { permittables = Ps.save_many s.permittables ps });
    find_role = λ name s. Rs.find_by_name s.roles name;
    save_role = λ r s. (ok tt, record s { roles = Rs.save s.roles r });
    fetch_users = λ ids s. fetch_by_id (source s ∷ []) ids;
  }

  abbrev pub user_repos : UserRepos Store
  user_repos = record {
    find_by_id = λ id s. Us.find_by_id s.users id;
    find_by_sub = λ sub s. Us.find_by_sub s.users split sub;
    find_by_email = λ email s. Us.find_by_email s.users email;
    find_by_alias = λ alias s. Us.find_by_alias s.users alias;
    find_by_name_or_email = λ given s. Us.find_by_name_or_email s.users given;
    find_by_verification = λ code s. Us.find_by_verification s.users code;
    find_by_password_reset_request = λ token s. Us.find_by_password_reset_request s.users token;
    find_by_sub_or_create = λ u sub s. put_users s (Us.find_by_sub_or_create s.users split u sub);
    create = λ u s. put_users s (Us.create s.users u);
    save = λ u s. put_users s (Us.save s.users u);
    remove = λ id s. put_users s (Us.remove s.users id);
    find_workspaces_of = λ user s. Ws.find_by_user x s.workspaces t user;
    save_workspaces = λ ws s. put_workspaces s (Ws.save_all x s.workspaces ws);
    remove_workspaces = λ ids s. put_workspaces s (Ws.remove_all x s.workspaces ids);
    find_roles = λ ids s. ok (Rs.find_by_ids s.roles ids);
  }
