-- ===== src/Workspace/Init.antt =====
-- server/pkg/workspace/initializer.go, and `GenReearthSub` of server/pkg/user/auth.go: a new user and
-- the personal workspace that goes with it. `new_user_id` and `new_id` are what `NewID` gives, `now`
-- and `now'` the readings of the clock before and behind the builders' `Build`.
use Prim.Native.String.{◌++◌}
use reearth_accounts.Prelude.{
  ℕ, String, ◌≡◌, refl, true, false, Option, none, some, List, [], ◌∷◌, Result, ok, err, ◌>>=◌,
  arith, >>=-eq-ok, ap, sym, subst, ◌∙◌, ◌==◌, if◌then◌else◌,
}
use reearth_accounts.Role.{owner}
use reearth_accounts.User.Auth.{Auth}
use reearth_accounts.User.Account.{
  User, Metadata, new_metadata, lang_from, set_theme, update_workspace, add_auth, contain_auth,
}
use reearth_accounts.User.Builder.{
  Outside, IsBuilt, new as new_user, build as build_user, build_user_lem, with_id as user_id,
  with_name as user_name, with_alias as user_alias, with_email as user_email,
  with_metadata as user_metadata, with_auths as user_auths, with_created_at as user_created_at,
  with_password_plain_text as user_password,
}
use reearth_accounts.User.Builder as U
use reearth_accounts.Workspace.Member.{user_role}
use reearth_accounts.Workspace.Entity.{
  Workspace, is_personal, new_metadata as new_workspace_metadata,
}
use reearth_accounts.Workspace.Builder.{
  Builder, new, build, build_lem, with_id, with_name, with_alias, with_members, with_personal,
  with_metadata,
}

-- `GenReearthSub`
abbrev pub gen_reearth_sub : String → Auth
gen_reearth_sub id = record { provider = "reearth"; sub = "reearth|" ++ id }

-- What `Init` calls outside the program: that of the user's builder, the text of an identifier and
-- of a language tag, and `language.Parse`
pub record Texts : Type 0 where
  pub outside : Outside
  pub id_text : ℕ → String
  pub lang_text : ℕ → String
  pub parse_lang : String → Option ℕ

pub record InitParams : Type 0 where
  pub email : String
  pub name : String
  pub sub : Option Auth
  pub password : Option (List ℕ)
  pub lang : Option ℕ
  pub theme : Option String
  pub user_id : Option ℕ
  pub workspace_id : Option ℕ

-- `if p.X == nil { p.X = … }`
abbrev pub or_default : {A : Type 0} → Option A → A → A
or_default none d = d
or_default (some a) d = a

module _ (t : Texts) (p : InitParams) where
  -- The metadata that `Init` makes
  abbrev pub init_metadata : Metadata
  init_metadata =
      set_theme (lang_from t.parse_lang new_metadata (t.lang_text (or_default p.lang 0)))
        (or_default p.theme "default")

  -- The identity that `Init` gives to the user `uid`
  abbrev pub init_sub : ℕ → Auth
  init_sub uid = or_default p.sub (gen_reearth_sub (t.id_text uid))

  abbrev with_password : Option (List ℕ) → U.Builder → U.Builder
  with_password none b = b
  with_password (some pass) b = user_password b pass

  -- The builder of the user
  abbrev pub user_builder : ℕ → ℕ → U.Builder
  user_builder uid now = with_password p.password (
      user_created_at
        (user_auths
          (user_metadata
            (user_email (user_alias (user_name (user_id new_user uid) p.name) p.name) p.email)
            init_metadata)
          (init_sub uid ∷ []) now)
        (some now))

  -- The builder of the workspace
  abbrev pub workspace_builder : ℕ → ℕ → Builder
  workspace_builder wid uid =
      with_metadata
        (with_personal
          (with_members (with_alias (with_name (with_id new wid) p.name) p.name)
            ((uid, record { role = owner; disabled = false; invited_by = uid; host = "" }) ∷ []))
          true)
        new_workspace_metadata

  -- `Init`
  unfoldable pub init : ℕ → ℕ → ℕ → ℕ → Result (User × Workspace)
  init new_user_id new_id now now' = do
    u ← build_user t.outside (user_builder (or_default p.user_id new_user_id) now) now' now' now'
    w ←
        build t.outside.is_empty (workspace_builder (or_default p.workspace_id new_id) u.id) now'
          now'
    ok (update_workspace u w.id now', w)

  with_password_u : (pass : Option (List ℕ)) (b : U.Builder) → (with_password pass b).u ≡ b.u
  with_password_u none b = refl
  with_password_u (some s) b = refl

  with_password_email :
      (pass : Option (List ℕ)) (b : U.Builder) → (with_password pass b).email ≡ b.email
  with_password_email none b = refl
  with_password_email (some s) b = refl

  user_builder_lem :
      (uid now : ℕ)
      → ((user_builder uid now).u.auths ≡ init_sub uid ∷ [])
        × ((user_builder uid now).u.id ≡ uid)
        × ((user_builder uid now).email ≡ p.email)
  unfolding user_auths add_auth contain_auth
  user_builder_lem uid now = (
    ap (λ (u : User). u.auths) (with_password_u p.password _),
    ap (λ (u : User). u.id) (with_password_u p.password _),
    with_password_email p.password _,
  )

  -- The workspace that `Build` makes from the builder of `Init`
  workspace_builder_members :
      (wid uid now : ℕ) (w : Workspace)
      → build t.outside.is_empty (workspace_builder wid uid) now now ≡ ok w
      → (w.members.users
          ≡ (uid, record { role = owner; disabled = false; invited_by = uid; host = "" }) ∷ [])
        × (w.name ≡ p.name)
        × (w.alias ≡ p.name)
  unfolding build
  workspace_builder_members wid uid now w h = ground arith

  -- The user and the workspace fit the parameters and each other.
  abbrev pub IsInit : ℕ → ℕ → User → Workspace → Type 0
  IsInit new_user_id new_id u w =
      (u.id ≡ or_default p.user_id new_user_id)
      × (u.email ≡ p.email)
      × (t.outside.parses u.email ≡ true)
      × (u.auths ≡ init_sub u.id ∷ [])
      × (u.workspace ≡ w.id)
      × (w.id ≡ or_default p.workspace_id new_id)
      × (is_personal w ≡ true)
      × ((v : ℕ) → user_role w.members v ≡ (if u.id == v then owner else ""))

  pub init_lem :
      (new_user_id new_id now now' : ℕ) (u : User) (w : Workspace)
      → init new_user_id new_id now now' ≡ ok (u, w)
      → IsInit new_user_id new_id u w
  unfolding init user_role
  init_lem new_user_id new_id now now' u w h =
      let uid = or_default p.user_id new_user_id in
      let wid = or_default p.workspace_id new_id in
      let (u0, e0, h0) =
        >>=-eq-ok (build_user t.outside (user_builder uid now) now' now' now') _ h in
      let (w0, e1, h1) =
        >>=-eq-ok (build t.outside.is_empty (workspace_builder wid u0.id) now' now') _ h0 in
      let (pending, filled, is_built) =
        build_user_lem t.outside (user_builder uid now) now' now' now' u0 e0 in
      let (same_id, parsed, email, theme, auths, updated) = is_built in
      let (pending', filled', wid_same, fixed, made, remade) =
        build_lem t.outside.is_empty (workspace_builder wid u0.id) now' now' w0 e1 in
      let (users, named, aliased) = workspace_builder_members wid u0.id now' w0 e1 in
      let (auth_given, id_given, email_given) = user_builder_lem uid now in
      let uid_same : u0.id ≡ uid = same_id ∙ id_given in
      let r : IsInit new_user_id new_id (update_workspace u0 w0.id now') w0 = (
        uid_same,
        email ∙ email_given,
        parsed,
        auths ∙ auth_given ∙ ap (λ i. init_sub i ∷ []) (sym uid_same),
        refl,
        wid_same,
        fixed,
        λ v. rw users (ground arith),
      ) in
      subst
        (λ (r : Result (User × Workspace)). elim r [
          | ok x ↦ IsInit new_user_id new_id x.0 x.1
          | err e ↦ Unit
        ])
        h1 r
