-- ===== src/UserUseCase/Profile.antt =====
-- server/internal/usecase/interactor/user.go: what `UpdateMe` changes of the user
use reearth_accounts.Prelude.{
  ℕ, String, ◌≡◌, refl, subst, true, Option, none, some, List, str_eq, ok, ◌∙◌, false, [], ◌∷◌,
  user_alias_already_exists, arith, eq_iff, ◌⊎◌, Bool-cases, inl, inr,
}
use reearth_accounts.User.Account.{
  User, has_auth_provider, set_password, match_password, update_email, update_alias,
}
use reearth_accounts.User.Credentials.{IsEncoder, match_password-set_password}
use reearth_accounts.Workspace.Entity.{Workspace}
use reearth_accounts.Workspace.Operator.{Operator}
use reearth_accounts.Workspace.Init.{or_default}
use reearth_accounts.Action.{pure, reads, fail_when, ◌>>=◌, ◌>>◌}
use reearth_accounts.Interactor.Guard.{or_absent}
use reearth_accounts.Workspace.Entity.{update_alias as update_workspace_alias}
use reearth_accounts.Action.Post.{
  Gives, Gives-pure, Gives-fail, Gives-any, Gives-lift, Gives-reads, Gives-bind, same_value,
}
use reearth_accounts.UserUseCase.Env.{UserEnv}
use reearth_accounts.UserUseCase.Me.{
  UpdateMeParam, updating_me, with_alias, renamed, when_given, with_email, with_password, is_other,
  runes_eq, is_unconfirmed, with_details,
}

-- What no profile update touches
abbrev pub IsSameUser : User → User → Type 0
IsSameUser u v =
    (v.id ≡ u.id)
    × (v.auths ≡ u.auths)
    × (v.workspace ≡ u.workspace)
    × (v.verification ≡ u.verification)
    × (v.password_reset ≡ u.password_reset)
    × (v.deleted_at ≡ u.deleted_at)

-- The name, the alias, the address and the password
abbrev pub HasTexts : String → String → String → List ℕ → User → Type 0
HasTexts name alias email password v =
    (v.name ≡ name) × (v.alias ≡ alias) × (v.email ≡ email) × (v.password ≡ password)

-- Where a password is given, the confirmation is the same.
abbrev pub IsConfirmed : UpdateMeParam → Type 0
IsConfirmed p = (p.password ≡ none) ⊎ (p.password_confirmation ≡ p.password)

runes_eq_value : (cs ds : List ℕ) → runes_eq cs ds ≡ true → cs ≡ ds
runes_eq_value [] [] h = refl
runes_eq_value [] (d ∷ ds) h = cc
runes_eq_value (c ∷ cs) [] h = cc
runes_eq_value (c ∷ cs) (d ∷ ds) h = ground (arith, runes_eq_value cs ds)

confirmed_value :
    (password confirmation : Option (List ℕ))
    → is_unconfirmed password confirmation ≡ false
    → (password ≡ none) ⊎ (confirmation ≡ password)
confirmed_value none confirmation h = inl refl
confirmed_value (some p) none h = cc
confirmed_value (some p) (some c) h = inr (ground (arith, runes_eq_value p c))

module _ {S : Type 0} (env : UserEnv S) (op : Operator) (now : ℕ) where
  -- A given password is that of a user who has an identity of the program itself; otherwise, and where
  -- none is given, the password is as before.
  abbrev pub HasPassword : Option (List ℕ) → User → User → Type 0
  HasPassword none u v = v.password ≡ u.password
  HasPassword (some password) u v =
      ((has_auth_provider (some u) "reearth" ≡ true)
        × (match_password env.outside.encoder (some v) password ≡ ok true))
      ⊎ ((has_auth_provider (some u) "reearth" ≡ false) × (v.password ≡ u.password))

  kept_before :
      (password : Option (List ℕ)) (u w v : User)
      → w.auths ≡ u.auths
      → w.password ≡ u.password
      → HasPassword password w v
      → HasPassword password u v
  unfolding has_auth_provider
  kept_before none u w v same before h = h ∙ before
  kept_before (some password) u w v same before (inl (known, matches)) =
      inl (rw (← same) known, matches)
  kept_before (some password) u w v same before (inr (unknown, kept)) =
      inr (rw (← same) unknown, kept ∙ before)

  abbrev HasAlias : User → String → User × Workspace → Type 0
  HasAlias u alias x = IsSameUser u x.0 × HasTexts u.name alias u.email u.password x.0

  other_alias :
      (alias : String) (u : User) (w : Workspace) (s : S)
      → Gives s
          (reads (λ s. or_absent (env.users.find_by_alias alias s)) >>= λ existing.
            fail_when (is_other existing u.id) user_alias_already_exists
            >> pure (update_alias u alias now, update_workspace_alias w alias now))
          (HasAlias u alias)
  other_alias alias u w s = Gives-reads s (HasAlias u alias) _ _ (λ existing found.
      Gives-fail s (HasAlias u alias) _ _ _
        (λ free. Gives-pure s (HasAlias u alias) _ (ground arith)))

  alias_step :
      (alias : Option String) (u : User) (w : Workspace) (s : S)
      → Gives s (with_alias env op now alias u w) (HasAlias u (or_default alias u.alias))
  alias_step none u w s = record { at = λ x s' e. ground arith }
  alias_step (some alias) u w s = elim (Bool-cases (str_eq alias u.alias)) [
    | inl same ↦ record { at = λ x s' e. ground (arith, rw same at e, eq_iff alias u.alias) }
    | inr new ↦ record { at = λ x s' e. (other_alias alias u w s).at x s' (rw new at e) }
  ]

  name_step :
      (name : Option String) (x : User × Workspace)
      → IsSameUser x.0 (when_given name (λ x name. renamed now name x) x).0
        × HasTexts
            (or_default name x.0.name)
            x.0.alias
            x.0.email
            x.0.password
            (when_given name (λ x name. renamed now name x) x).0
  name_step none x = ground arith
  name_step (some name) x = ground (arith, eq_iff name x.0.name)

  email_step :
      (email : Option String) (u v : User)
      → with_email env op now email u ≡ ok v
      → IsSameUser u v × HasTexts u.name u.alias (or_default email u.email) u.password v
  unfolding update_email
  email_step none u v e = ground arith
  email_step (some email) u v e = ground arith

  password_step :
      (laws : IsEncoder env.outside.encoder) (password : Option (List ℕ)) (u v : User)
      → with_password env op now password u ≡ ok v
      → IsSameUser u v × HasTexts u.name u.alias u.email v.password v × HasPassword password u v
  unfolding set_password
  password_step laws none u v e = ground arith
  password_step laws (some password) u v e =
      elim (Bool-cases (has_auth_provider (some u) "reearth")) [
        | inl known ↦
            let set : set_password env.outside.is_number env.outside.is_upper env.outside.is_lower
                  env.outside.encoder u password now
                ≡ ok v =
              rw known at e in
            let matches =
              (match_password-set_password env.outside.is_number env.outside.is_upper
                env.outside.is_lower env.outside.encoder laws u v password now set).0 in
            (ground arith, ground arith, inl (known, matches))
        | inr unknown ↦
            let same : ok u ≡ ok v = rw unknown at e in
            (ground arith, ground arith, inr (unknown, ground arith))
      ]

  -- What a succeeding update leaves of the user `u`
  abbrev pub IsUpdated : UpdateMeParam → User → User → Type 0
  IsUpdated p u v =
      IsConfirmed p
      × IsSameUser u v
      × HasTexts (or_default p.name u.name) (or_default p.alias u.alias)
          (or_default p.email u.email) v.password v
      × HasPassword p.password u v

  ending :
      (p : UpdateMeParam) (u : User) (x : User × Workspace) (y u1 u2 u3 : User)
      → IsConfirmed p
      → HasAlias u (or_default p.alias u.alias) x
      → IsSameUser x.0 y × HasTexts (or_default p.name x.0.name) x.0.alias x.0.email x.0.password y
      → IsSameUser y u1 × HasTexts y.name y.alias (or_default p.email y.email) y.password u1
      → IsSameUser u2 u3
        × HasTexts u2.name u2.alias u2.email u3.password u3
        × HasPassword p.password u2 u3
      → IsSameUser u1 u2 × HasTexts u1.name u1.alias u1.email u1.password u2
      → IsUpdated p u u3
  ending p u x y u1 u2 u3 confirmed a b c d e = (
    confirmed,
    ground arith,
    ground arith,
    kept_before p.password u u2 u3 (ground arith) (ground arith) d.2,
  )

  module _ (lang_text : ℕ → String) (parse_lang : String → Option ℕ) where
    -- If the body of `UpdateMe` succeeds, with an encoder that verifies what it encodes, a given
    -- password was confirmed; the user has the name, the alias and the address that are given, and
    -- those of before where none is given; a given password matches the user's if they have an identity
    -- of the program itself, and otherwise the password is as before; the identities, the workspace and
    -- the tokens are as before.
    pub updating_me_lem :
        (user : ℕ) (p : UpdateMeParam) (s s' : S) (u v : User)
        → IsEncoder env.outside.encoder
        → env.users.find_by_id user s ≡ ok u
        → updating_me env op now lang_text parse_lang user p s ≡ (ok v, s')
        → IsUpdated p u v
    unfolding updating_me
    updating_me_lem user p s s' u v laws found e =
        (Gives-fail s (IsUpdated p u) _ _ _ (λ confirmed.
            Gives-reads s (IsUpdated p u) _ _ (λ u0 found0.
              Gives-reads s (IsUpdated p u) _ _ (λ ws found_ws.
                Gives-lift s (IsUpdated p u) _ _ (λ w given.
                  Gives-bind s (IsUpdated p u) _ _ (λ x s1 aliased.
                    Gives-lift s1 (IsUpdated p u) _ _ (λ u1 mailed.
                      Gives-lift s1 (IsUpdated p u) _ _ (λ u3 secured.
                        Gives-any s1 (IsUpdated p u) _ _ (λ t s2.
                          Gives-any s2 (IsUpdated p u) _ _ (λ t s3.
                            Gives-any s3 (IsUpdated p u) _ _ (λ t s4.
                              Gives-pure s4 (IsUpdated p u) u3 (
                                subst (λ u. IsUpdated p u u3)
                                  (same_value (λ a. a ≡ u) found found0 refl)
                                  (ending p u0 x
                                    (when_given p.name (λ x name. renamed now name x) x).0 u1
                                    (record u1 {
                                      metadata = with_details lang_text parse_lang p u1.metadata;
                                    })
                                    u3
                                    (confirmed_value p.password p.password_confirmation confirmed)
                                    ((alias_step p.alias u0 w s).at x s1 aliased)
                                    (name_step p.name x) (email_step p.email _ u1 mailed)
                                    (password_step laws p.password _ u3 secured)
                                    (
                                      (refl, refl, refl, refl, refl, refl),
                                      (refl, refl, refl, refl),
                                    )))))))))))))).at
          v s' e
