-- ===== src/Memory/Reset.antt =====
-- The reset of a password (server/internal/usecase/interactor/user.go) over the repositories in
-- memory, from its start to the password in its place. `now` and `later` are the times of the two
-- calls.
use reearth_accounts.Prelude.{
  ℕ, ◌+◌, ◌*◌, ◌<◌, String, ◌≡◌, refl, sym, true, false, none, some, List, str_eq, ok, err,
  not_found, arith, eq_refl,
}
use reearth_accounts.Prelude.Idx.{Idx}
use reearth_accounts.Prelude.Dict.{insert, lookup-insert}
use reearth_accounts.User.Auth.{get_by_provider, provider_reearth}
use reearth_accounts.User.Account.{User, match_password, set_password, set_password_reset}
use reearth_accounts.User.Credentials.{IsEncoder, match_password-set_password}
use reearth_accounts.User.Tokens.{hour, validate, new_password_reset}
use reearth_accounts.Action.{◌>>=◌}
use reearth_accounts.UserUseCase.Env.{UserEnv, run_without_operator}
use reearth_accounts.UserUseCase.Session.{
  starting_reset, start_password_reset, resetting, password_reset, encoded, lacks_sub,
}
use reearth_accounts.UserUseCase.SignIn.{same_match}
use reearth_accounts.Memory.Texts.{Texts, first_value}
use reearth_accounts.Memory.Users.{
  find_by_id, find_by_email, find_by_password_reset_request, has_reset_token, save,
}
use reearth_accounts.Memory.Container.{Store, user_repos}
use reearth_accounts.Memory.Finding.{first_value-insert, first_value-drop_twice}

-- The store with the user saved
abbrev pub saved : User → Store → Store
saved u s = record s { users = record s.users { stored = insert u.id u s.users.stored } }

-- The texts that the two calls are given, on a store in which they lead to the user: the address is
-- the user's, the user has an identity of the program itself, and nobody has the token.
pub record CanReset (s : Store) (u : User) (email token : String) : Type 0 where
  pub works : s.users.failure ≡ none
  pub email_given : str_eq email "" ≡ false
  pub token_given : str_eq token "" ≡ false
  pub found : first_value (λ (v : User). str_eq v.email email) s.users.stored ≡ some u
  pub has_identity : lacks_sub (get_by_provider u.auths provider_reearth) ≡ false
  pub fresh : first_value (has_reset_token token) s.users.stored ≡ none

module _ (t : Texts) (x : Idx) (split : String → List String) (base : UserEnv Store) where
  -- The use cases over the repositories in memory
  abbrev pub over_memory : UserEnv Store
  over_memory = record base { users = user_repos t x split }

  -- The user with the token
  abbrev pub with_token : User → String → ℕ → User
  with_token u token now = set_password_reset u (some (new_password_reset token now)) now

  starts :
      (token email : String) (now : ℕ) (s : Store) (u : User)
      → s.users.failure ≡ none
      → str_eq email "" ≡ false
      → first_value (λ (v : User). str_eq v.email email) s.users.stored ≡ some u
      → lacks_sub (get_by_provider u.auths provider_reearth) ≡ false
      → starting_reset over_memory now token email s
        ≡ (ok (with_token u token now), saved (with_token u token now) s)
  unfolding starting_reset ◌>>=◌ find_by_email save
  starts token email now s u works given found has_sub = rw (works, given, found, has_sub) refl

  ends :
      (token : String) (password : List ℕ) (later : ℕ) (s : Store) (u w : User)
      → s.users.failure ≡ none
      → str_eq token "" ≡ false
      → first_value (has_reset_token token) s.users.stored ≡ some u
      → validate u.password_reset token later ≡ true
      → lacks_sub (get_by_provider u.auths provider_reearth) ≡ false
      → encoded over_memory later u password ≡ ok w
      → resetting over_memory later password token s
        ≡ (ok (set_password_reset w none later), saved (set_password_reset w none later) s)
  unfolding resetting ◌>>=◌ find_by_password_reset_request save
  ends token password later s u w works given found valid has_sub set =
      rw (works, given, found, valid, has_sub, set) refl

  -- What the two calls leave: the password matches the stored user's, and the token is used up.
  abbrev pub IsResetIn : Store → ℕ → List ℕ → String → Type 0
  IsResetIn s id password token =
      (v : User) × (find_by_id s.users id ≡ ok v)
      × (match_password base.outside.encoder (some v) password ≡ ok true)
      × (find_by_password_reset_request s.users token ≡ err not_found)

  used_up :
      (token : String) (s : Store) (v w : User) (password : List ℕ)
      → s.users.failure ≡ none
      → str_eq token "" ≡ false
      → first_value (has_reset_token token) s.users.stored ≡ none
      → v.id ≡ w.id
      → w.password_reset ≡ none
      → match_password base.outside.encoder (some w) password ≡ ok true
      → IsResetIn (saved w (saved v s)) v.id password token
  unfolding find_by_id find_by_password_reset_request
  used_up token s v w password works given fresh same no_token matches = (
    w,
    ground (arith, lookup-insert w.id v.id w (insert v.id v s.users.stored)),
    matches,
    rw
        (
          works,
          given,
          first_value-drop_twice (has_reset_token token) v.id w.id v w s.users.stored same fresh
              (rw no_token refl),
        )
        refl,
  )

  still_valid :
      (u : User) (token : String) (now later : ℕ)
      → later < now + 24 * hour
      → validate (with_token u token now).password_reset token later ≡ true
  unfolding validate
  still_valid u token now later soon = ground (arith, eq_refl token)

  changed :
      (u w : User) (password : List ℕ) (now : ℕ)
      → encoded over_memory now u password ≡ ok w
      → w.id ≡ u.id
  unfolding set_password
  changed u w password now e = ground arith

  -- Over the repositories in memory, with a transaction that keeps a success, a mailer that sends and
  -- an encoder that verifies what it encodes: if the user can be reset, and the program accepts the
  -- new password, then a started reset that is ended with its token in less than 24 hours succeeds;
  -- behind it the user who is stored under the identifier has the new password (`MatchPassword` gives
  -- true), and no user has the token any more.
  pub reset_succeeds :
      (s : Store) (u w : User) (email token : String) (password : List ℕ) (now later : ℕ)
      → ((s s' : Store) → base.base.settle true s s' ≡ s')
      → ((s : Store) → base.send_mail u.email u.name token s ≡ (ok tt, s))
      → IsEncoder base.outside.encoder
      → CanReset s u email token
      → encoded over_memory later (with_token u token now) password ≡ ok w
      → later < now + 24 * hour
      → (s1 s2 : Store) × (start_password_reset over_memory now token email s ≡ (ok tt, s1))
        × (password_reset over_memory later password token s1 ≡ (ok tt, s2))
        × IsResetIn s2 u.id password token
  unfolding start_password_reset password_reset run_without_operator ◌>>=◌
  reset_succeeds s u w email token password now later keeps sends laws can set soon =
      let u1 = with_token u token now in
      let w1 = set_password_reset w none later in
      let begun = starts token email now s u can.works can.email_given can.found can.has_identity in
      let ended =
        ends token password later (saved u1 s) u1 w can.works can.token_given
          (first_value-insert (has_reset_token token) u.id u1 s.users.stored can.fresh
            (eq_refl token))
          (still_valid u token now later soon) can.has_identity set in
      (
        saved u1 s,
        saved w1 (saved u1 s),
        rw (begun, keeps s (saved u1 s), sends (saved u1 s)) refl,
        rw (ended, keeps (saved u1 s) (saved w1 (saved u1 s))) refl,
        used_up token s u1 w1 password can.works can.token_given can.fresh
            (sym (changed u1 w password later set)) refl
            (same_match over_memory later w password
              (match_password-set_password base.outside.is_number base.outside.is_upper
                base.outside.is_lower base.outside.encoder laws u1 w password later set).0),
      )
