-- ===== src/Workspace/Member/Samples.antt =====
-- Members for the tests: user 1 is an owner, user 2 a writer, and with `two_owners` user 3 an owner
-- too; integration 7 is a reader.
use reearth_accounts.Prelude.{false, [], ◌∷◌}
use reearth_accounts.Role.{owner, writer, reader}
use reearth_accounts.Workspace.Member.{Members, new_members_with, new_member}

abbrev pub one_owner : Members
one_owner =
    new_members_with ((1, new_member owner 1 "") ∷ (2, new_member writer 1 "") ∷ [])
      ((7, new_member reader 1 "") ∷ []) false

abbrev pub two_owners : Members
two_owners =
    new_members_with
      ((1, new_member owner 1 "") ∷ (2, new_member writer 1 "") ∷ (3, new_member owner 1 "") ∷ [])
      ((7, new_member reader 1 "") ∷ []) false

-- The users of `one_owner` in another order
abbrev pub turned : Members
turned =
    new_members_with ((2, new_member writer 1 "") ∷ (1, new_member owner 1 "") ∷ [])
      ((7, new_member reader 1 "") ∷ []) false
