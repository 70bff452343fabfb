-- ===== src/User/Tests.antt =====
-- The theorems on users at concrete ones
use reearth_accounts.Prelude.{ℕ, ◌≤◌, ◌≡◌, refl, some, none, List, [], ◌∷◌, ◌⊎◌}
use reearth_accounts.Prelude.Lists.{drop}
use reearth_accounts.User.Auth.{Auth, remove, remove_by_position}

abbrev auth0 : Auth
auth0 = record { provider = "auth0"; sub = "auth0|x" }

abbrev google : Auth
google = record { provider = "google"; sub = "google|y" }

abbrev github : Auth
github = record { provider = "github"; sub = "github|z" }

abbrev three : List Auth
three = auth0 ∷ google ∷ github ∷ []

-- The third of three identities
remove_by_position_example :
    ((◌≡◌ {A = ℕ} 2 0) × (remove three "github|z" ≡ some (drop 1 three)))
    ⊎ ((◌≡◌ {A = ℕ} 2 1) × (remove three "github|z" ≡ some three))
    ⊎ ((2 ≤ 2) × (remove three "github|z" ≡ none))
remove_by_position_example = remove_by_position three "github|z" 2 refl
