-- ===== src/Interactor/Leaving.antt =====
-- server/internal/usecase/interactor/workspace.go: the loop of `RemoveMultipleUserMembers`
use reearth_accounts.Prelude.{
  ℕ, Bool, ◌&&◌, List, [], ◌∷◌, ◌==◌, Result, ok, ◌>>=◌, ◌>>◌, fail_if,
  owner_cannot_leave_the_workspace,
}
use reearth_accounts.Workspace.Member.{Members, is_only_owner, leave}

-- The members without `users`, who are taken out one after the other; `operator` is
-- `*operator.User`.
unfoldable pub leave_all : (ℕ → ℕ → Bool) → ℕ → Members → List ℕ → Result Members
leave_all later operator m [] = ok m
leave_all later operator m (u ∷ users) = do
  fail_if (operator == u && is_only_owner later m u) owner_cannot_leave_the_workspace
  m' ← leave m u
  leave_all later operator m' users
