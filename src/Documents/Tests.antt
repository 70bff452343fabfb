-- ===== src/Documents/Tests.antt =====
-- The theorems on what is stored, at concrete inputs.
use reearth_accounts.Documents.Samples.{strokes as documents_samples_strokes}
use mathlib.Core.List.{Permᴰ, Pairwise-pair}
use mathlib.Core.HLevel.{¬_prop}
use reearth_accounts.Prelude.{
  ℕ, String, ◌≡◌, ◌≢◌, refl, Bool, true, none, some, List, [], ◌∷◌, ok, arith, ◌==◌, ltb,
}
use reearth_accounts.Prelude.Lists.{select}
use reearth_accounts.Documents.Samples.{
  texts, texts-IsTexts, permittable, user, admin, mail, workspace, document,
}
use reearth_accounts.Documents.Mongo.Permittables as MP
use reearth_accounts.Documents.Postgres.Permittables as PP
use reearth_accounts.Documents.Stored.Permittables.{permittable_stored}
use reearth_accounts.Documents.Mongo.AdminUsers as MA
use reearth_accounts.Documents.Mongo.Users as MU
use reearth_accounts.Documents.Mongo.Hash as H
use reearth_accounts.Documents.Mongo.Workspaces as MW
use reearth_accounts.Documents.Postgres.AdminUsers as PA
use reearth_accounts.Documents.Postgres.Users as PU
use reearth_accounts.Documents.Postgres.Workspaces as PW
use reearth_accounts.Documents.Configs.{zero_config, sort, next_migrations}
use reearth_accounts.Documents.Stored.AdminUsers.{admin_user_stored}
use reearth_accounts.Documents.Stored.Users as Us
use reearth_accounts.Documents.Stored.Users.{user_stored}
use reearth_accounts.Documents.Stored.Workspaces as Ws
use reearth_accounts.Documents.Stored.Workspaces.{workspace_stored, loaded}
use reearth_accounts.Documents.Stored.Hash.{HaveOtherIds, hash-perm}
use reearth_accounts.Documents.Stored.Configs.{IsSorted, next_migrations_lem}
use reearth_accounts.AdminUser.{normalize_and_validate_email}
use reearth_accounts.AdminUser.Life.{IsConsistent}
use reearth_accounts.User.Auth.{auth_from}
use reearth_accounts.User.Builder.{Outside}
use reearth_accounts.User.Samples.{digit, upper, lower, plain}

abbrev is_zero : ℕ → Bool
is_zero i = i == 0

permittable_stored_example :
    (MP.model texts is_zero (some (MP.new_permittable texts permittable 8).0) 9
      ≡ ok (some permittable))
    × (PP.model texts is_zero
          (PP.new_permittable_row texts permittable 8).0
          (PP.new_permittable_row texts permittable 8).1
          9
        ≡ ok permittable)
permittable_stored_example =
    permittable_stored texts is_zero permittable 8 9 texts-IsTexts refl refl (omega arith)
      (omega arith)

admin-IsConsistent : IsConsistent admin
admin-IsConsistent = record {
  status = refl;
  role = refl;
  approved_at = refl;
  pending_at = refl;
  pending_by = refl;
}

admin_email : normalize_and_validate_email mail admin.email ≡ ok admin.email
unfolding normalize_and_validate_email
admin_email = refl

admin_name : admin.name ≢ ""
admin_name = cc

admin_user_stored_example :
    (MA.model texts is_zero mail (some (MA.new_admin_user texts is_zero (λ i. i) admin 8).0) 9
      ≡ ok (some admin))
    × (PA.model texts is_zero mail (PA.new_admin_user_row texts is_zero (λ i. i) admin) 9
        ≡ ok admin)
admin_user_stored_example =
    admin_user_stored texts is_zero mail (λ i. i) admin 8 9 texts-IsTexts (λ i. refl)
      admin-IsConsistent (omega arith) admin_name admin_email (omega arith) refl refl

abbrev outside : Outside
outside = record {
  is_empty = is_zero;
  parses = λ s. true;
  is_number = digit;
  is_upper = upper;
  is_lower = lower;
  encoder = plain;
}

user_subs : Us.HasReadSubs texts.split user.auths
unfolding auth_from
user_subs = (refl, tt)

user-IsWhole : Us.IsWhole texts outside user
user-IsWhole = record {
  id_set = omega arith;
  workspace_set = omega arith;
  id = refl;
  email = refl;
  theme = refl;
  updated_at = omega arith;
  subs = user_subs;
  providers = (refl, tt);
}

user_stored_example :
    (PU.model texts outside (PU.new_user_row texts user 8) 9 ≡ ok (record user { host = "" }))
    × (MU.model texts outside (MU.new_user texts user 8).0 9 ≡ ok (record user { host = "" }))
    × (MU.consume texts outside "g" (MU.new_user texts user 8).0 9
        ≡ ok (record user { host = "g"; updated_at = 9 }))
user_stored_example = user_stored texts outside user "g" 8 9 texts-IsTexts user-IsWhole

workspace-IsWhole : Ws.IsWhole is_zero workspace
workspace-IsWhole = record {
  id_set = omega arith;
  id = refl;
  updated_at = omega arith;
  policy = cc;
  created_by = cc;
  users = (refl, (refl, tt));
  users_set = omega arith;
  integrations = (refl, tt);
  integrations_set = omega arith;
}

abbrev hash : List H.WorkspaceMemberForHash → String
hash [] = "none"
hash (m ∷ l) = m.id

workspace_stored_example :
    (PW.model texts is_zero
        (PW.new_workspace_rows texts hash workspace 8).0
        (PW.new_workspace_rows texts hash workspace 8).1
        (PW.new_workspace_rows texts hash workspace 8).2
        9
      ≡ ok (loaded workspace))
    × (MW.model texts is_zero (MW.new_workspace texts hash workspace 8).0 9
        ≡ some (ok (record (loaded workspace) { created_by = none })))
unfolding documents_samples_strokes
workspace_stored_example =
    workspace_stored texts is_zero hash workspace 8 9 texts-IsTexts workspace-IsWhole

next_migrations_lem_example :
    (next_migrations (record zero_config { migration = 2 }) (5 ∷ 1 ∷ 3 ∷ [])
      ≡ sort (select (ltb 2) (5 ∷ 1 ∷ 3 ∷ [])))
    × IsSorted (next_migrations (record zero_config { migration = 2 }) (5 ∷ 1 ∷ 3 ∷ []))
next_migrations_lem_example =
    next_migrations_lem (record zero_config { migration = 2 }) (5 ∷ 1 ∷ 3 ∷ [])

abbrev forwards : H.MemberDocuments
forwards = ("1", document) ∷ ("11", document) ∷ []

abbrev backwards : H.MemberDocuments
backwards = ("11", document) ∷ ("1", document) ∷ []

one_ne_two : HaveOtherIds (H.for_hash "user" ("1", document)) (H.for_hash "user" ("11", document))
one_ne_two = cc

hash-perm_example :
    H.compute_workspace_members_hash hash forwards []
    ≡ H.compute_workspace_members_hash hash backwards []
hash-perm_example =
    hash-perm hash forwards backwards [] [] (Permᴰ.swap refl refl) Permᴰ.nil
      ((Pairwise-pair (λ a b. ¬_prop)).1 one_ne_two)
