-- ===== src/AdminUser/SignInTests.antt =====
-- The theorem on signing in at a concrete repository
use reearth_accounts.Action.{◌>>=◌ as action_◌>>=◌}
use reearth_accounts.AdminUser.SignIn.{admitting as adminuser_signin_admitting}
use reearth_accounts.AdminUser.SignIn.{is_refused as adminuser_signin_is_refused}
use reearth_accounts.AdminUser.SignIn.{signing_in_anew as adminuser_signin_signing_in_anew}
use reearth_accounts.AdminUser.{
  normalize_and_validate_email as adminuser_normalize_and_validate_email,
}
use reearth_accounts.Prelude.{refl, true, some, none, [], ◌∷◌, ◌==◌, str_eq, Result, ok, err}
use reearth_accounts.AdminUser.{AdminUser, MailText}
use reearth_accounts.AdminUser.Memory.{Data, find_by_email, find_by_id, save}
use reearth_accounts.AdminUser.SignIn.{SignInEnv, Claims, sign_in}
use reearth_accounts.AdminUser.Admission.{IsAdmitted, sign_in_lem}

abbrev mail : MailText
mail = record { parse_address = λ s. some s; lower = λ s. s; trim = λ s. s }

abbrev claims : Claims
claims = record {
  email = "a@b.c";
  email_verified = true;
  hd = "b.c";
  name = "Ann";
  picture_url = "";
}

abbrev env : SignInEnv Data
env = record {
  find_by_email = λ e d. find_by_email mail d e;
  find_by_id = λ i d. find_by_id d i;
  save = λ u d. save d u;
  verify = λ token. some claims;
  mail = mail;
  is_nil = λ i. i == 0;
  equal_fold = λ s t. str_eq s t;
  has_suffix = λ s t. true;
  local_part = λ s. none;
  allowed_domain = "b.c";
  bootstrap = "a@b.c" ∷ [];
}

abbrev nobody : AdminUser
nobody = record {
  approved_at = 0;
  approved_by = 0;
  email = "";
  id = 0;
  name = "";
  picture_url = "";
  role = "";
  status = "";
  updated_at = 0;
}

abbrev signed_in : Result AdminUser × Data
signed_in = sign_in env 5 1 "token" []

abbrev value : Result AdminUser × Data → AdminUser
value (ok u, s) = u
value (err e, s) = nobody

abbrev left : Result AdminUser × Data → Data
left (r, s) = s

sign_in_lem_example : IsAdmitted env 5 [] "token" (value signed_in)
unfolding sign_in action_◌>>=◌ adminuser_signin_admitting adminuser_signin_is_refused find_by_email
    adminuser_signin_signing_in_anew adminuser_normalize_and_validate_email save
sign_in_lem_example = sign_in_lem env 5 1 "token" [] (left signed_in) (value signed_in) refl
