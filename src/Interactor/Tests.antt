-- ===== src/Interactor/Tests.antt =====
-- The theorems on the use cases of workspaces over a concrete store
use reearth_accounts.Prelude.{
  ℕ, ◌≡◌, ◌≢◌, refl, arith, eq_iff, true, false, some, none, [], ◌∷◌, Result, ok,
}
use reearth_accounts.Prelude.Idx.{plain_idx}
use reearth_accounts.Role.{owner, writer, reader, valid, includes}
use reearth_accounts.Permittable.{build, update_workspace_role}
use reearth_accounts.Workspace.Entity.{Workspace}
use reearth_accounts.Workspace.Member.{
  Members, user_role, leave, join, is_only_owner, update_user_role,
}
use reearth_accounts.Workspace.Member.Samples.{one_owner, two_owners}
use reearth_accounts.Workspace.Member.Owners.{HasOwner, IsSoleOwner}
use reearth_accounts.Workspace.Operator.{Operator, is_owning}
use reearth_accounts.Action.{◌>>=◌}
use reearth_accounts.Interactor.Guard.{operator_user}
use reearth_accounts.Interactor.Permits.{update_permittable, bulk_remove_permittable}
use reearth_accounts.Interactor.Env.{run, Env}
use reearth_accounts.Interactor.Members.{
  removing, updating, updating_via_service, transferring, transfer_ownership,
  remove_multiple_user_members, remove_user_member, update_user_member,
  update_user_member_via_service, store_role,
}
use reearth_accounts.Interactor.Leaving.{leave_all}
use reearth_accounts.Interactor.Ownership.{
  sole_owner_removed, update_user_member_via_service-HasOwner, remove_user_member-HasOwner,
}
use reearth_accounts.Interactor.Removal.{Removed, remove_multiple_user_members_effect}
use reearth_accounts.Interactor.Roles.{
  Transferred, Updated, transfer_ownership_effect, update_user_member_effect,
}
use reearth_accounts.User.Account.{User}
use reearth_accounts.User.Builder.{new}
use reearth_accounts.Interactor.Joining.{join_all, updates}
use reearth_accounts.Interactor.Adding.{
  Added, enforce, adding, add_user_member, role_ids, bulk_update_permittable,
  add_user_member_keeps_owners,
}
use reearth_accounts.Workspace.Builder.{build as build_workspace}
use reearth_accounts.Interactor.Creating.{Created, create, creating, create_effect}
use reearth_accounts.Interactor.Samples.{
  Store, repos, env, owner_of_10, stranger, workspace, store, fresh, value, left, result,
}

abbrev moved : Result Workspace × Store
moved = transfer_ownership env (owner_of_10 1) 5 fresh 10 2 (store one_owner)

transfer_ownership_effect_example :
    (is_owning plain_idx (owner_of_10 1) (10 ∷ []) ≡ true)
    × Transferred env (owner_of_10 1) 5 fresh 1 2 one_owner (result one_owner moved)
unfolding transfer_ownership transferring ◌>>=◌ operator_user run user_role update_user_role valid
    update_permittable build update_workspace_role
transfer_ownership_effect_example =
    transfer_ownership_effect env (owner_of_10 1) 5 fresh 1 10 2 (store one_owner) (left moved)
      (workspace one_owner) (result one_owner moved) refl refl refl

abbrev removal : Result Workspace × Store
removal =
    remove_multiple_user_members env (owner_of_10 1) 5 fresh 10 (2 ∷ 1 ∷ []) (store two_owners)

remove_multiple_user_members_effect_example :
    Removed env (owner_of_10 1) 5 fresh (2 ∷ 1 ∷ []) two_owners (result two_owners removal)
unfolding remove_multiple_user_members ◌>>=◌ operator_user run removing leave_all leave
    is_only_owner bulk_remove_permittable
remove_multiple_user_members_effect_example =
    remove_multiple_user_members_effect env (owner_of_10 1) 5 fresh 10 (2 ∷ 1 ∷ [])
      (store two_owners) (left removal) (workspace two_owners) (result two_owners removal) refl refl

abbrev update : Result Workspace × Store
update = update_user_member env (owner_of_10 1) 5 fresh 10 2 reader (store one_owner)

update_user_member_effect_example :
    Updated env (owner_of_10 1) 5 fresh 1 2 reader one_owner (result one_owner update)
unfolding update_user_member ◌>>=◌ operator_user run updating user_role includes store_role
    update_user_role valid update_permittable build update_workspace_role
update_user_member_effect_example =
    update_user_member_effect env (owner_of_10 1) 5 fresh 1 10 2 reader (store one_owner)
      (left update) (workspace one_owner) (result one_owner update) refl refl refl

abbrev service : Result Workspace × Store
service = update_user_member_via_service env (owner_of_10 1) 5 fresh 10 1 reader (store two_owners)

update_user_member_via_service-HasOwner_example : HasOwner (result two_owners service).members
unfolding update_user_member_via_service ◌>>=◌ operator_user run updating_via_service user_role
    is_only_owner store_role update_user_role valid update_permittable build update_workspace_role
update_user_member_via_service-HasOwner_example =
    update_user_member_via_service-HasOwner env (owner_of_10 1) 5 fresh 10 1 reader
      (store two_owners) (left service) (workspace two_owners) (result two_owners service) refl
      (refl, (refl, (refl, tt))) (3, refl) refl

abbrev going : Result Workspace × Store
going = remove_user_member env (owner_of_10 1) 5 fresh 10 1 (store two_owners)

remove_user_member-HasOwner_example : HasOwner (result two_owners going).members
unfolding remove_user_member remove_multiple_user_members ◌>>=◌ operator_user run removing user_role
    leave_all leave is_only_owner bulk_remove_permittable
remove_user_member-HasOwner_example =
    remove_user_member-HasOwner env (owner_of_10 1) 5 fresh 10 1 (store two_owners) (left going)
      (workspace two_owners) (result two_owners going) refl refl (refl, (refl, (refl, tt)))
      (3, refl) refl

one_owner-IsSoleOwner : IsSoleOwner one_owner 1
unfolding user_role
one_owner-IsSoleOwner = (refl, λ v ne e. ground (arith, eq_iff "" owner, eq_iff writer owner))

sole_owner_removed_example :
    (m' : Members) × (leave_all (λ a b. false) 2 one_owner (1 ∷ []) ≡ ok m')
    × ((v : ℕ) → user_role m' v ≢ owner)
sole_owner_removed_example =
    sole_owner_removed (λ a b. false) 2 1 one_owner (λ e. omega arith) refl one_owner-IsSoleOwner

abbrev newcomer : User
newcomer = record new.u { id = 5; email = "e@f.g" }

-- The store's users: whoever is asked for is `newcomer`, but for one who is missing.
abbrev crowded : Env Store
crowded = record env {
  repos = record repos { fetch_users = λ us s. ok (none ∷ some newcomer ∷ []) };
}

abbrev addition : Result Workspace × Store
addition =
    add_user_member crowded (owner_of_10 1) 5 fresh fresh 10 ((5, writer) ∷ []) (store one_owner)

add_user_member_keeps_owners_example :
    Added crowded (owner_of_10 1) 5 fresh fresh one_owner (result one_owner addition)
unfolding add_user_member adding ◌>>=◌ operator_user run enforce join_all join
    bulk_update_permittable role_ids updates build update_workspace_role
add_user_member_keeps_owners_example =
    add_user_member_keeps_owners crowded (owner_of_10 1) 5 fresh fresh 10 ((5, writer) ∷ [])
      (store one_owner) (left addition) (workspace one_owner) (result one_owner addition) refl refl

-- The store's users: whoever is asked for is `newcomer`.
abbrev signing : Env Store
signing = record env { repos = record repos { fetch_users = λ us s. ok (some newcomer ∷ []) } }

abbrev creation : Result (Workspace × Operator) × Store
creation =
    create signing stranger 6 11 60 61 (λ t. t) (λ i. "11") "" "New" "" 5 false (store one_owner)

abbrev made : Workspace × Operator
made = value (workspace one_owner, stranger) creation

create_effect_example :
    Created signing stranger 6 11 60 61 (λ t. t) (λ i. "11") 9 newcomer false made
unfolding create creating ◌>>=◌ operator_user run join build_workspace update_permittable build
    update_workspace_role
create_effect_example =
    create_effect signing stranger 6 11 60 61 (λ t. t) (λ i. "11") 9 5 "" "New" "" newcomer false
      (store one_owner) (left creation) made refl refl refl
