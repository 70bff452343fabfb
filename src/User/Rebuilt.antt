-- ===== src/User/Rebuilt.antt =====
-- server/pkg/user/user_builder.go: `Auths` and `Build` on what a user could have.
use reearth_accounts.Prelude.{
  ℕ, ◌<◌, ◌≡◌, refl, ◌∙◌, sym, ap, subst, true, false, none, some, List, [], ◌∷◌, ◌++◌, arith, ok,
  eq_iff,
}
use mathlib.Core.List.{append-nil, append_assoc}
use reearth_accounts.Prelude.Lists.{some_where, some_where-append}
use reearth_accounts.User.Auth.{Auth, has_provider_name}
use reearth_accounts.User.Account.{User, add_auth, theme_valid, update_email}
use reearth_accounts.User.Builder.{Outside, Builder, add_all, with_auths, build}
use reearth_accounts.User.Identities.{HasDistinctProviders, contain_auth-provider}

-- In a list with distinct providers, none before an identity has its provider.
distinct_before :
    (l r : List Auth) (a : Auth)
    → HasDistinctProviders (l ++ a ∷ r)
    → some_where (has_provider_name a.provider) l ≡ false
distinct_before [] r a h = refl
distinct_before (b ∷ l) r a h = ground (
  arith,
  distinct_before l r a h.1,
  some_where-append (has_provider_name b.provider) l (a ∷ r),
  eq_iff a.provider b.provider,
  eq_iff b.provider a.provider,
)

-- `Auths` adds all the identities, if their providers are distinct.
pub add_all_lem :
    (u : User) (l : List Auth) (now : ℕ)
    → HasDistinctProviders (u.auths ++ l)
    → (t : ℕ) × (add_all (some u) l now ≡ some (record u { auths = u.auths ++ l; updated_at = t }))
unfolding add_auth
add_all_lem u [] now h = (u.updated_at, rw (append-nil u.auths))
add_all_lem u (a ∷ l) now h =
    let u' = record u { auths = u.auths ++ a ∷ []; updated_at = now } in
    let same : (u.auths ++ a ∷ []) ++ l ≡ u.auths ++ a ∷ l = append_assoc u.auths (a ∷ []) l in
    let (t, e) = add_all_lem u' l now (subst HasDistinctProviders (sym same) h) in
    (
      t,
      rw (contain_auth-provider u a, distinct_before u.auths l a h)
          (e ∙ ap (λ auths. some (record u { auths = auths; updated_at = t })) same),
    )

-- So does the setter of a builder that has none; the time of update is then some reading of the clock.
pub with_auths_lem :
    (b : Builder) (l : List Auth) (now : ℕ)
    → b.u.auths ≡ []
    → HasDistinctProviders l
    → (t : ℕ) × (with_auths b l now ≡ record b { u = record b.u { auths = l; updated_at = t } })
unfolding with_auths
with_auths_lem b l now z h =
    let bare = record b.u { auths = [] } in
    let same : b.u ≡ bare = ground arith in
    let (t, e) = add_all_lem bare l now h in (t, rw same (rw e refl))

-- A builder that has the parts of a user, with no plain password, gives the user.
pub build_fixed :
    (o : Outside) (u : User) (now : ℕ)
    → o.is_empty u.id ≡ false
    → o.parses u.email ≡ true
    → theme_valid u.metadata.theme ≡ true
    → 0 < u.updated_at
    → build o
        (record { u = record u { email = "" }; error = none; password_text = []; email = u.email })
        now
        now
        now
      ≡ ok u
unfolding build update_email
build_fixed o u now id email theme updated = rw (id, theme, email) (ground arith)
