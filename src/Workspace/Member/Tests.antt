-- ===== src/Workspace/Member/Tests.antt =====
-- The theorems on the members at concrete ones
use reearth_accounts.Prelude.{ℕ, ◌≡◌, ◌↔◌, refl, Bool, true, List, [], ◌∷◌, ltb}
use reearth_accounts.Role.{writer}
use reearth_accounts.Workspace.Member.{Members, is_only_owner}
use reearth_accounts.Workspace.Member.Samples.{one_owner}
use reearth_accounts.Workspace.Member.Invariant.{Call, run, run_personal}
use reearth_accounts.Workspace.Member.Owners.{IsSoleOwner, is_only_owner_iff}

abbrev later : ℕ → ℕ → Bool
later a b = ltb b a

is_only_owner_iff_example : (is_only_owner later one_owner 1 ≡ true) ↔ IsSoleOwner one_owner 1
is_only_owner_iff_example = is_only_owner_iff later one_owner 1 (refl, (refl, tt))

abbrev personal : Members
personal = record one_owner { fixed = true }

-- A join and a leave are refused, and an integration goes.
abbrev calls : List Call
calls =
    Call.join_as 5 "" writer 1
    ∷ Call.leave_of 1
    ∷ Call.update_user_role_of 2 writer
    ∷ Call.delete_integration_of 7
    ∷ []

run_personal_example :
    ((run personal calls).fixed ≡ true) × ((run personal calls).users ≡ personal.users)
run_personal_example = run_personal personal calls refl
