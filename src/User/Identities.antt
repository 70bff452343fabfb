-- ===== src/User/Identities.antt =====
-- What every sequence of changes to a user's identities keeps.
use reearth_accounts.Prelude.{
  ℕ, String, ◌≡◌, refl, Bool, true, false, ◌||◌, Option, none, some, List, [], ◌∷◌, ◌++◌, str_eq,
  eq_iff, arith, Option-cases, Bool-cases, inl, inr,
}
use reearth_accounts.Prelude.Lists.{some_where, some_where-append}
use reearth_accounts.User.Auth.{Auth, auth_eq, is_auth0, has_provider_name, provider_auth0}
use reearth_accounts.User.Account.{
  User, contain_auth, has_auth_provider, add_auth, without_first, store_auths, provider_is,
  remove_auth, remove_auth_by_provider,
}

-- No provider stands twice.
abbrev pub HasDistinctProviders : List Auth → Type 0
HasDistinctProviders [] = Unit
HasDistinctProviders (a ∷ l) =
    (some_where (has_provider_name a.provider) l ≡ false) × HasDistinctProviders l

-- The changes to the identities, with their arguments and the time.
pub data Change : Type 0 where
  add remove : Auth → ℕ → Change
  remove_provider : String → ℕ → Change

unfoldable pub change : Option User → Change → Option User
unfolding add_auth remove_auth remove_auth_by_provider
change u (add a now) = (add_auth u a now).0
change u (remove a now) = (remove_auth u a now).0
change u (remove_provider p now) = (remove_auth_by_provider u p now).0

unfoldable pub change_all : Option User → List Change → Option User
unfolding change
change_all u [] = u
change_all u (c ∷ cs) = change_all (change u c) cs

abbrev pub auths_of : Option User → List Auth
auths_of none = []
auths_of (some u) = u.auths

-- `ContainAuth` says that the provider is there.
pub contain_auth-provider :
    (u : User) (a : Auth)
    → contain_auth (some u) a ≡ some_where (has_provider_name a.provider) u.auths
unfolding contain_auth
contain_auth-provider u a = go u.auths
  where
    go :
        (l : List Auth)
        → some_where (λ (b : Auth). auth_eq a b || str_eq a.provider b.provider) l
          ≡ some_where (has_provider_name a.provider) l
    go [] = refl
    go (b ∷ l) = ground (arith, go l, eq_iff a.provider b.provider, eq_iff b.provider a.provider)

append-HasDistinctProviders :
    (l : List Auth) (a : Auth)
    → some_where (has_provider_name a.provider) l ≡ false
    → HasDistinctProviders l
    → HasDistinctProviders (l ++ a ∷ [])
append-HasDistinctProviders [] a n h = (refl, tt)
append-HasDistinctProviders (b ∷ l) a n h = ground (
  arith,
  append-HasDistinctProviders l a,
  some_where-append (has_provider_name b.provider) l (a ∷ []),
  eq_iff a.provider b.provider,
  eq_iff b.provider a.provider,
)

-- What is left of a list has no provider that the list has not.
without_first-provider :
    (p : Auth → Bool) (q : String) (l l' : List Auth)
    → without_first p l ≡ some l'
    → some_where (has_provider_name q) l ≡ false
    → some_where (has_provider_name q) l' ≡ false
without_first-provider p q [] l' e n = cc
without_first-provider p q (b ∷ l) l' e n = elim (Option-cases (without_first p l)) [
  | inl none_left ↦ ground arith
  | inr (r, left) ↦ ground (arith, without_first-provider p q l r left)
]

without_first-HasDistinctProviders :
    (p : Auth → Bool) (l l' : List Auth)
    → without_first p l ≡ some l'
    → HasDistinctProviders l
    → HasDistinctProviders l'
without_first-HasDistinctProviders p [] l' e h = cc
without_first-HasDistinctProviders p (b ∷ l) l' e h = elim (Option-cases (without_first p l)) [
  | inl none_left ↦ ground arith
  | inr (r, left) ↦ ground (
    arith,
    without_first-HasDistinctProviders p l r left h.1,
    without_first-provider p b.provider l r left h.0,
  )
]

store-HasDistinctProviders :
    (u : User) (p : Auth → Bool) (now : ℕ)
    → HasDistinctProviders u.auths
    → HasDistinctProviders (auths_of (store_auths u (without_first p u.auths) now).0)
store-HasDistinctProviders u p now h = elim (Option-cases (without_first p u.auths)) [
  | inl e ↦ rw (e, store_auths) h
  | inr (l', e) ↦ rw (e, store_auths) (without_first-HasDistinctProviders p u.auths l' e h)
]

change-HasDistinctProviders :
    (u : Option User) (c : Change)
    → HasDistinctProviders (auths_of u)
    → HasDistinctProviders (auths_of (change u c))
unfolding change
change-HasDistinctProviders none (add a now) h = h
change-HasDistinctProviders none (remove a now) h = h
change-HasDistinctProviders none (remove_provider p now) h = h
change-HasDistinctProviders (some u) (add a now) h =
    ground (arith, contain_auth-provider u a, append-HasDistinctProviders u.auths a)
change-HasDistinctProviders (some u) (remove a now) h =
    ground (arith, store-HasDistinctProviders u (auth_eq a) now h)
change-HasDistinctProviders (some u) (remove_provider p now) h =
    ground (arith, store-HasDistinctProviders u (provider_is p) now h)

-- Whatever identities are added and removed, a user who had no two identities of one provider has
-- no two.
pub change_all-HasDistinctProviders :
    (u : Option User) (cs : List Change)
    → HasDistinctProviders (auths_of u)
    → HasDistinctProviders (auths_of (change_all u cs))
unfolding change_all
change_all-HasDistinctProviders u [] h = h
change_all-HasDistinctProviders u (c ∷ cs) h =
    change_all-HasDistinctProviders (change u c) cs (change-HasDistinctProviders u c h)

-- Taking out an identity of another provider leaves the providers that are asked for.
without_first_ne :
    (p : Auth → Bool) (q : String) (l l' : List Auth)
    → ((b : Auth) → p b ≡ true → has_provider_name q b ≡ false)
    → without_first p l ≡ some l'
    → some_where (has_provider_name q) l' ≡ some_where (has_provider_name q) l
without_first_ne p q [] l' ne e = cc
without_first_ne p q (b ∷ l) l' ne e = elim (Option-cases (without_first p l)) [
  | inl none_left ↦ ground (arith, ne b)
  | inr (r, left) ↦ ground (arith, ne b, without_first_ne p q l r ne left)
]

store_ne :
    (u : User) (p : Auth → Bool) (q : String) (now : ℕ)
    → ((b : Auth) → p b ≡ true → has_provider_name q b ≡ false)
    → has_auth_provider (store_auths u (without_first p u.auths) now).0 q
      ≡ has_auth_provider (some u) q
unfolding has_auth_provider
store_ne u p q now ne = elim (Option-cases (without_first p u.auths)) [
  | inl e ↦ rw (e, store_auths)
  | inr (l', e) ↦ rw (e, store_auths) (without_first_ne p q u.auths l' ne e)
]

change_auth0 :
    (u : Option User) (c : Change)
    → has_auth_provider u provider_auth0 ≡ true
    → has_auth_provider (change u c) provider_auth0 ≡ true
unfolding change
change_auth0 none (add a now) h = h
change_auth0 none (remove a now) h = h
change_auth0 none (remove_provider p now) h = h
change_auth0 (some u) (add a now) h =
    unfold has_auth_provider in
    ground (arith, some_where-append (has_provider_name provider_auth0) u.auths (a ∷ []))
change_auth0 (some u) (remove a now) h = elim (Bool-cases (is_auth0 a)) [
  | inl e ↦ ground arith
  | inr e ↦ ground (
    arith,
    store_ne u (auth_eq a) provider_auth0 now
        λ b same. ground (arith, eq_iff a.provider b.provider),
  )
]
change_auth0 (some u) (remove_provider p now) h = elim (Bool-cases (str_eq p "auth0")) [
  | inl e ↦ ground arith
  | inr e ↦ ground (
    arith,
    store_ne u (provider_is p) provider_auth0 now λ b same. ground (arith, eq_iff p b.provider),
  )
]

-- A user who may sign in by Auth0 may still do so after any identities are added and removed.
pub change_all_auth0 :
    (u : Option User) (cs : List Change)
    → has_auth_provider u provider_auth0 ≡ true
    → has_auth_provider (change_all u cs) provider_auth0 ≡ true
unfolding change_all
change_all_auth0 u [] h = h
change_all_auth0 u (c ∷ cs) h = change_all_auth0 (change u c) cs (change_auth0 u c h)
