-- ===== src/UserUseCase/Samples.antt =====
-- The use cases on users over the repositories in memory, for the tests: a user 1 with one identity of
-- the program, who is a maintainer, and the user's workspace 10.
use reearth_accounts.Prelude.{
  refl, String, Bool, true, false, none, some, List, [], ◌∷◌, ◌==◌, str_eq, Result, ok, err, failed,
}
use reearth_accounts.Prelude.Idx.{plain_idx}
use reearth_accounts.Role.{maintainer, owner, self}
use reearth_accounts.User.Account.{User, new_metadata}
use reearth_accounts.User.Builder.{Outside}
use reearth_accounts.User.Samples.{digit, upper, lower, pass, plain}
use reearth_accounts.Workspace.Filter.{no_filter}
use reearth_accounts.Workspace.Member.{Members}
use reearth_accounts.Workspace.Init as Init
use reearth_accounts.Workspace.Operator.{Operator}
use reearth_accounts.Interactor.Env.{IsTransaction}
use reearth_accounts.Interactor.Samples.{workspace, stranger}
use reearth_accounts.Memory.Texts.{Texts}
use reearth_accounts.Memory.Container.{Store, new, repos, user_repos}
use reearth_accounts.UserUseCase.Env.{UserEnv}
use reearth_accounts.UserUseCase.SignUp.{SignUpEnv, New}

abbrev pub texts : Texts
texts = record {
  lower = λ s. s;
  trim = λ s. s;
  has_text = λ s t. str_eq s t;
  byte_len = λ s. 3;
  empty_is_nil = false;
}

-- No subject has a provider.
abbrev pub split : String → List String
split s = s ∷ []

abbrev pub outside : Outside
outside = record {
  is_empty = λ i. i == 0;
  parses = λ s. true;
  is_number = digit;
  is_upper = upper;
  is_lower = lower;
  encoder = plain;
}

abbrev pub settle : Bool → Store → Store → Store
settle true s s' = s'
settle false s s' = s

pub settle-IsTransaction : IsTransaction settle
settle-IsTransaction = record { commit = λ s s'. refl; rollback = λ s s'. refl }

abbrev pub env : UserEnv Store
env = record {
  base = record {
    idx = plain_idx;
    repos = repos texts plain_idx split;
    cerbos = none;
    enforce_member_count = none;
    mock_auth = false;
    settle = settle;
  };
  users = user_repos texts plain_idx split;
  cerbos = none;
  authenticators = λ p. none;
  send_mail = λ email name token s. (ok tt, s);
  outside = outside;
}

abbrev pub user : User
user = record {
  id = 1;
  name = "Ann";
  alias = "ann";
  email = "a@b.c";
  latest_logout_at = 0;
  metadata = new_metadata;
  password = 1 ∷ pass;
  workspace = 10;
  auths = record { provider = "reearth"; sub = "reearth|1" } ∷ [];
  verification = some (record { verified = true; code = "code"; expiration = 9 });
  password_reset = none;
  host = "";
  updated_at = 3;
  deleted_at = none;
  created_at = some 3;
}

abbrev pub store : Members → Store
store members = record (new no_filter) {
  users = record { stored = (1, user) ∷ []; failure = none };
  workspaces = record { stored = (10, workspace members) ∷ []; f = no_filter; failure = none };
  permittables =
      (
        60,
        record { id = 60; user_id = 1; role_ids = 50 ∷ []; workspace_roles = []; updated_at = 1 },
      )
      ∷ [];
  roles =
      (50, record { id = 50; name = maintainer; updated_at = 1 })
      ∷ (51, record { id = 51; name = self; updated_at = 1 })
      ∷ (52, record { id = 52; name = owner; updated_at = 1 })
      ∷ [];
}

-- The operator who is user 1
abbrev pub operator : Operator
operator = record stranger { user = some 1 }

abbrev pub sign_up_env : SignUpEnv Store
sign_up_env = record {
  env = env;
  signup_secret = "s";
  allowed_iss = [];
  texts = record {
    outside = outside;
    id_text = λ i. "2";
    lang_text = λ l. "";
    parse_lang = λ s. none;
  };
  split = split;
  userinfo_endpoint = λ iss s. err failed;
  userinfo_url = λ iss. none;
  request_user_info = λ url token s. err failed;
}

abbrev pub fresh : New
fresh = record {
  user_id = 2;
  workspace_id = 20;
  self_id = 61;
  owner_id = 62;
  permittable_id = 63;
  code = "new code";
}

-- A newcomer's texts
abbrev pub newcomer : Init.InitParams
newcomer = record {
  email = "n@b.c";
  name = "Nell";
  sub = none;
  password = some pass;
  lang = none;
  theme = none;
  user_id = none;
  workspace_id = none;
}

-- What a call gives, where it gives something
abbrev pub value : {A : Type 0} → A → Result A × Store → A
value a (ok b, s) = b
value a (err e, s) = a

abbrev pub left : {A : Type 0} → Result A × Store → Store
left (r, s) = s
