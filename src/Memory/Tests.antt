-- ===== src/Memory/Tests.antt =====
-- The theorems on the repositories in memory at a concrete store
use reearth_accounts.Prelude.{
  ℕ, ◌≡◌, refl, arith, ◌==◌, if◌then◌else◌, none, some, List, [], ◌∷◌, ok,
}
use reearth_accounts.Prelude.Idx.{plain_idx}
use reearth_accounts.User.Account.{User, set_password}
use reearth_accounts.User.Auth.{get_by_provider}
use reearth_accounts.User.Samples.{pass, plain-IsEncoder}
use reearth_accounts.User.Password.{new_encoded_password, validate_password_format}
use reearth_accounts.Workspace.Member.Samples.{one_owner}
use reearth_accounts.UserUseCase.Session.{start_password_reset, password_reset}
use reearth_accounts.UserUseCase.Samples.{texts, split, env, user, store}
use reearth_accounts.Memory.Texts.{found_or_not_found}
use reearth_accounts.Memory.Users.{Users, find_by_id}
use reearth_accounts.Memory.Container.{Store}
use reearth_accounts.Memory.Refines.{Call, View, Shows, run, run_spec, run_refines}
use reearth_accounts.Memory.Reset.{CanReset, over_memory, with_token, IsResetIn, reset_succeeds}

abbrev users : Users
users = record { stored = (1, user) ∷ []; failure = none }

abbrev shown : View
shown i = if i == 1 then some user else none

users-Shows : Shows users shown
users-Shows = (refl, λ i. ground arith)

abbrev calls : List Call
calls =
    Call.creating user
    ∷ Call.removing 1
    ∷ Call.creating user
    ∷ Call.saving (record user { id = 2 })
    ∷ []

run_refines_example :
    ((run calls users).0 ≡ (run_spec calls shown).0)
    × ((id : ℕ)
        → find_by_id (run calls users).1 id ≡ found_or_not_found ((run_spec calls shown).1 id))
run_refines_example = run_refines calls users shown users-Shows

can_reset : CanReset (store one_owner) user "a@b.c" "token"
unfolding get_by_provider
can_reset = record {
  works = refl;
  email_given = refl;
  token_given = refl;
  found = refl;
  has_identity = refl;
  fresh = refl;
}

abbrev reset_user : User
reset_user = record (with_token texts plain_idx split env user "token" 4) {
  password = 1 ∷ pass;
  updated_at = 5;
}

reset_succeeds_example :
    (s1 s2 : Store) × (start_password_reset
        (over_memory texts plain_idx split env)
        4
        "token"
        "a@b.c"
        (store one_owner)
      ≡ (ok tt, s1))
    × (password_reset (over_memory texts plain_idx split env) 5 pass "token" s1 ≡ (ok tt, s2))
    × IsResetIn texts plain_idx split env s2 1 pass "token"
unfolding set_password new_encoded_password validate_password_format
reset_succeeds_example =
    reset_succeeds texts plain_idx split env (store one_owner) user reset_user "a@b.c" "token" pass
      4 5 (λ s s'. refl) (λ s. refl) plain-IsEncoder can_reset refl (omega arith)
