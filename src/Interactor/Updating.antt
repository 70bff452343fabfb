-- ===== src/Interactor/Updating.antt =====
-- server/internal/usecase/interactor/workspace.go: `Update`. `now` stands for the readings of the
-- clock in one call.
use Prim.Native.String.{◌++◌}
use reearth_accounts.Prelude.{
  ℕ, String, Bool, false, not, ◌||◌, Option, none, some, ◌==◌, str_eq, Result, ok, err,
  permission_denied, operation_denied, invalid_name, invalid_photo_url,
  workspace_alias_already_exists, cannot_modify_personal_workspace, if◌then◌else◌,
}
use reearth_accounts.Role.{owner}
use reearth_accounts.Workspace.Entity.{
  Workspace, Metadata, is_personal, rename, update_alias, set_metadata, set_description,
  set_website, set_photo_url,
}
use reearth_accounts.Workspace.Member.{user_role}
use reearth_accounts.Workspace.Operator.{Operator}
use reearth_accounts.Action.{Action, pure, lift, reads, fail_when, ◌>>=◌, ◌>>◌}
use reearth_accounts.Interactor.Env.{Env, Cerbos, run, usecase}
use reearth_accounts.Interactor.Guard.{operator_user, apply_default_policy}
use reearth_accounts.Interactor.Reading.{Reads}

-- What `Update` calls of package strings, and the text of an identifier
pub record Texts : Type 0 where
  pub trim : String → String
  pub lower : String → String
  pub has_prefix : String → String → Bool
  pub id_text : ℕ → String

-- `interfaces.UpdateWorkspaceParam`
pub record UpdateParam : Type 0 where
  pub id : ℕ
  pub name : Option String
  pub alias : Option String
  pub description : Option String
  pub website : Option String
  pub photo_url : Option String

-- `ferr == nil && existing != nil && existing.ID() != ws.ID()`
abbrev pub is_taken : Result Workspace → ℕ → Bool
is_taken (err e) id = false
is_taken (ok w) id = not (w.id == id)

-- The answer of the service to the second question: only a refusal counts.
abbrev pub refuses : Option Bool → Bool
refuses none = false
refuses (some allowed) = not allowed

module _ {S : Type 0} (env : Env S) (r : Reads S) (t : Texts) (op : Operator) (now : ℕ) where
  -- The check of `Update` where the service has no say
  abbrev pub check_role : ℕ → Workspace → Action S (Unit {0})
  check_role user w = fail_when (not (str_eq (user_role w.members user) owner)) operation_denied

  abbrev pub answered : ℕ → Workspace → Option Bool → Action S (Unit {0})
  answered user w none = check_role user w
  answered user w (some allowed) = fail_when (not allowed) permission_denied

  abbrev pub check_edit : Option (Cerbos S) → ℕ → Workspace → Action S (Unit {0})
  check_edit none user w = check_role user w
  check_edit (some cerbos) user w = reads (cerbos user "edit" w.alias) >>= answered user w

  -- The name step
  abbrev pub with_name : Option String → Workspace → Result Workspace
  with_name none w = ok w
  with_name (some name) w =
      if str_eq (t.trim name) "" then err invalid_name else ok (rename w (t.trim name) now)

  abbrev pub check_alias : Option (Cerbos S) → ℕ → Workspace → Action S (Unit {0})
  check_alias none user w s = (ok tt, s)
  check_alias (some cerbos) user w s =
      (reads (cerbos user "edit_alias" w.alias) >>= λ a. fail_when (refuses a) permission_denied) s

  -- The alias that is asked for; an empty one stands for the text of the identifier.
  abbrev pub asked_alias : ℕ → String → String
  asked_alias id alias = if str_eq (t.trim alias) "" then "w-" ++ t.id_text id else t.trim alias

  abbrev pub changing_alias : ℕ → String → Workspace → Action S Workspace
  changing_alias user alias w = do
    check_alias env.cerbos user w
    taken ← reads (λ s. ok (is_taken (r.find_by_alias alias s) w.id))
    fail_when taken workspace_alias_already_exists
    pure (update_alias w alias now)

  -- The alias step
  abbrev pub with_alias : ℕ → ℕ → Option String → Workspace → Action S Workspace
  with_alias user id none w s = (ok w, s)
  with_alias user id (some alias) w s =
      if str_eq (asked_alias id alias) w.alias
      then (ok w, s)
      else changing_alias user (asked_alias id alias) w s

  abbrev pub when_given : Option String → (Metadata → String → Metadata) → Metadata → Metadata
  when_given none f m = m
  when_given (some v) f m = f m v

  abbrev pub is_url : String → Bool
  is_url url = t.has_prefix (t.lower url) "http://" || t.has_prefix (t.lower url) "https://"

  abbrev pub with_photo : Option String → Metadata → Result Metadata
  with_photo none m = ok m
  with_photo (some url) m =
      if is_url (t.trim url) then err invalid_photo_url else ok (set_photo_url m (t.trim url))

  -- The body of `Update`
  unfoldable pub updating_workspace : ℕ → UpdateParam → Action S Workspace
  unfolding user_role
  updating_workspace user p = do
    w ← reads (env.repos.find_workspace p.id)
    fail_when (is_personal w) cannot_modify_personal_workspace
    check_edit env.cerbos user w
    w1 ← lift (with_name p.name w)
    w2 ← with_alias user p.id p.alias w1
    m ← lift (
        with_photo p.photo_url
          (when_given p.website set_website (when_given p.description set_description w2.metadata)))
    env.repos.save_workspace (set_metadata w2 m now)
    pure (apply_default_policy (set_metadata w2 m now) op now)

  -- `Update`
  unfoldable pub update : UpdateParam → Action S Workspace
  update p = do user ← lift (operator_user op); run env usecase op (updating_workspace user p)
