-- ===== src/UserUseCase/Me.antt =====
-- server/internal/usecase/interactor/user.go: `UpdateMe` and `RemoveMyAuth`. `now` stands for the
-- readings of the clock in one call, `lang_text` and `parse_lang` for `Tag.String` and
-- `language.Parse`.
use reearth_accounts.Prelude.{
  ℕ, String, Bool, true, false, not, ◌&&◌, ◌||◌, Option, none, some, List, [], ◌∷◌, ◌==◌, str_eq,
  Result, ok, err, not_found, invalid_password_confirmation, user_alias_already_exists, is_some,
  if◌then◌else◌,
}
use reearth_accounts.User.Auth.{Auth}
use reearth_accounts.User.Account.{
  User, update_name, update_alias, update_email, remove_auth_by_provider, has_auth_provider,
  lang_from, set_theme,
}
use reearth_accounts.User.Account as Account
use reearth_accounts.Workspace.Entity.{Workspace, is_personal, rename, set_metadata}
use reearth_accounts.Workspace.Entity as Entity
use reearth_accounts.Workspace.Operator.{Operator}
use reearth_accounts.Action.{Action, pure, lift, reads, fail_when, only_when, ◌>>=◌, ◌>>◌}
use reearth_accounts.Interactor.Env.{run, usecase}
use reearth_accounts.Interactor.Guard.{operator_user, or_absent}
use reearth_accounts.UserUseCase.Env.{UserEnv, Authenticator, authenticator_for}
use reearth_accounts.UserUseCase.Session.{encoded}

-- `interfaces.UpdateMeParam`
pub record UpdateMeParam : Type 0 where
  pub name : Option String
  pub email : Option String
  pub alias : Option String
  pub photo_url : Option String
  pub website : Option String
  pub description : Option String
  pub lang : Option ℕ
  pub theme : Option String
  pub password : Option (List ℕ)
  pub password_confirmation : Option (List ℕ)

abbrev pub runes_eq : List ℕ → List ℕ → Bool
runes_eq [] [] = true
runes_eq [] (d ∷ ds) = false
runes_eq (c ∷ cs) [] = false
runes_eq (c ∷ cs) (d ∷ ds) = c == d && runes_eq cs ds

-- The password is given, and not confirmed by the same one.
abbrev pub is_unconfirmed : Option (List ℕ) → Option (List ℕ) → Bool
is_unconfirmed none confirmation = false
is_unconfirmed (some p) none = true
is_unconfirmed (some p) (some c) = not (runes_eq p c)

-- `if v != nil { x = f(x, *v) }`
abbrev pub when_given : {A V : Type 0} → Option V → (A → V → A) → A → A
when_given none f a = a
when_given (some v) f a = f a v

-- `ws == nil`
abbrev pub present : Option Workspace → Result Workspace
present none = err not_found
present (some w) = ok w

-- Someone else has the alias.
abbrev pub is_other : Option User → ℕ → Bool
is_other none id = false
is_other (some v) id = not (v.id == id)

-- The user's metadata
abbrev pub with_details :
    (ℕ → String) → (String → Option ℕ) → UpdateMeParam → Account.Metadata → Account.Metadata
with_details lang_text parse_lang p m = when_given p.photo_url Account.set_photo_url (
    when_given p.website Account.set_website (
      when_given p.description Account.set_description (
        when_given p.theme set_theme
          (when_given p.lang (λ m l. lang_from parse_lang m (lang_text l)) m))))

module _ (now : ℕ) where
  -- What a new name changes
  abbrev pub renamed : String → User × Workspace → User × Workspace
  renamed name (u, w) = if str_eq name u.name then (u, w) else (
    update_name u name now,
    if str_eq w.name "" || str_eq w.name u.name then rename w name now else w,
  )

  -- The metadata of a personal workspace
  abbrev pub workspace_details : UpdateMeParam → Workspace → Workspace
  workspace_details p w =
      if (is_some p.description || is_some p.website || is_some p.photo_url) && is_personal w
      then set_metadata w
          (when_given p.photo_url Entity.set_photo_url (
            when_given p.website Entity.set_website
              (when_given p.description Entity.set_description w.metadata)))
          now
      else w

module _ {S : Type 0} (env : UserEnv S) (op : Operator) (now : ℕ) where
  -- The alias step
  abbrev pub with_alias : Option String → User → Workspace → Action S (User × Workspace)
  with_alias none u w s = (ok (u, w), s)
  with_alias (some alias) u w s =
      if str_eq alias u.alias
      then (ok (u, w), s)
      else (do
        existing ← reads (λ s. or_absent (env.users.find_by_alias alias s))
        fail_when (is_other existing u.id) user_alias_already_exists
        pure (update_alias u alias now, Entity.update_alias w alias now))
          s

  abbrev pub with_email : Option String → User → Result User
  with_email none u = ok u
  with_email (some email) u = update_email env.outside.parses u email now

  abbrev pub with_password : Option (List ℕ) → User → Result User
  with_password none u = ok u
  with_password (some password) u =
      if has_auth_provider (some u) "reearth" then encoded env now u password else ok u

  abbrev sync_by : UpdateMeParam → String → Option (Authenticator S) → Action S (Unit {0})
  sync_by p sub none = pure tt
  sync_by p sub (some t) = t.update_user sub p.name p.email p.password

  -- The loop over the identities
  abbrev sync_all : UpdateMeParam → List Auth → Action S (Unit {0})
  sync_all p [] = pure tt
  sync_all p (a ∷ auths) =
      only_when (not (str_eq a.provider "cip" || str_eq a.provider ""))
        (sync_by p a.sub (authenticator_for env a.provider))
      >> sync_all p auths

  module _ (lang_text : ℕ → String) (parse_lang : String → Option ℕ) where
    -- The body of `UpdateMe`
    unfoldable pub updating_me : ℕ → UpdateMeParam → Action S User
    unfolding lang_from
    updating_me user p = do
      fail_when (is_unconfirmed p.password p.password_confirmation) invalid_password_confirmation
      u ← reads (env.users.find_by_id user)
      ws ← reads (λ s. or_absent (env.base.repos.find_workspace u.workspace s))
      w ← lift (present ws)
      aliased ← with_alias p.alias u w
      let named = when_given p.name (λ x name. renamed now name x) aliased
      u1 ← lift (with_email p.email named.0)
      let u2 : User = record u1 { metadata = with_details lang_text parse_lang p u1.metadata }
      u3 ← lift (with_password p.password u2)
      only_when (is_some p.name || is_some p.email || is_some p.password) (sync_all p u3.auths)
      env.base.repos.save_workspace (workspace_details now p named.1)
      env.users.save u3
      pure u3

    -- `UpdateMe`
    unfoldable pub update_me : UpdateMeParam → Action S User
    update_me p = do user ← lift (operator_user op); run env.base usecase op (updating_me user p)

  abbrev or_same : User → Option User → User
  or_same u none = u
  or_same u (some v) = v

  -- The body of `RemoveMyAuth`
  unfoldable pub removing_auth : ℕ → String → Action S User
  unfolding remove_auth_by_provider
  removing_auth user provider = do
    u ← reads (env.users.find_by_id user)
    env.users.save (or_same u (remove_auth_by_provider (some u) provider now).0)
    pure (or_same u (remove_auth_by_provider (some u) provider now).0)

  -- `RemoveMyAuth`
  unfoldable pub remove_my_auth : String → Action S User
  remove_my_auth provider = do
    user ← lift (operator_user op)
    run env.base usecase op (removing_auth user provider)
