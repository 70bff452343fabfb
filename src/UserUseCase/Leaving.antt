-- ===== src/UserUseCase/Leaving.antt =====
-- server/internal/usecase/interactor/user.go: `DeleteMe`
use reearth_accounts.Prelude.{
  ℕ, Bool, not, ◌&&◌, ◌||◌, Option, none, some, List, [], ◌∷◌, ◌==◌, Result, ok, err,
  invalid_user_id, target_user_not_in_the_workspace, if◌then◌else◌,
}
use reearth_accounts.User.Account.{User}
use reearth_accounts.Workspace.Entity.{Workspace, is_personal}
use reearth_accounts.Workspace.Member.{Members, is_only_owner, leave}
use reearth_accounts.Workspace.Operator.{Operator}
use reearth_accounts.Action.{Action, pure, lift, reads, fail_when, ◌>>=◌, ◌>>◌}
use reearth_accounts.Interactor.Env.{run, usecase}
use reearth_accounts.Interactor.Guard.{operator_user, or_absent}
use reearth_accounts.Interactor.Members.{with_members}
use reearth_accounts.UserUseCase.Env.{UserEnv}

-- What the loop of `DeleteMe` makes of the workspaces of a user: those without the user, and those
-- to be removed.
pub record Parted : Type 0 where
  pub updated : List Workspace
  pub deleted : List ℕ

abbrev pub keep : Workspace → Result Parted → Result Parted
keep w (err e) = err e
keep w (ok p) = ok (record p { updated = w ∷ p.updated })

abbrev pub drop : ℕ → Result Parted → Result Parted
drop id (err e) = err e
drop id (ok p) = ok (record p { deleted = id ∷ p.deleted })

-- `continue` where the user has left already, or the error of `Leave`
abbrev pub left : Workspace → Result Members → Result Parted → Result Parted
left w (ok m) rest = keep (with_members w m) rest
left w (err target_user_not_in_the_workspace) rest = rest
left w (err e) rest = err e

-- The loop of `DeleteMe`
unfoldable pub part : (ℕ → ℕ → Bool) → ℕ → List Workspace → Result Parted
part later u [] = ok (record { updated = []; deleted = [] })
part later u (w ∷ ws) =
    let rest = part later u ws in
    if not (is_personal w) && not (is_only_owner later w.members u)
    then left w (leave w.members u) rest
    else drop w.id rest

module _ {S : Type 0} (env : UserEnv S) (op : Operator) where
  -- `DeleteMe` from the reading of the workspaces on
  unfoldable pub removing_user : Option User → Action S (Unit {0})
  removing_user none = pure tt
  removing_user (some u) = do
    workspaces ← reads (env.users.find_workspaces_of u.id)
    parted ← lift (part env.base.idx.later u.id workspaces)
    env.users.save_workspaces parted.updated
    env.users.remove_workspaces parted.deleted
    env.users.remove u.id

  -- The body of `DeleteMe`
  unfoldable pub deleting : ℕ → ℕ → Action S (Unit {0})
  deleting user id = do
    fail_when (env.base.idx.is_empty id || not (id == user)) invalid_user_id
    found ← reads (λ s. or_absent (env.users.find_by_id id s))
    removing_user found

  -- `DeleteMe`
  unfoldable pub delete_me : ℕ → Action S (Unit {0})
  delete_me id = do user ← lift (operator_user op); run env.base usecase op (deleting user id)
