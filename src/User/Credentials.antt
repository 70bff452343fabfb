-- ===== src/User/Credentials.antt =====
-- Setting a password and signing in with it.
use reearth_accounts.Prelude.{ℕ, ◌≡◌, ◌<◌, ◌≤◌, Bool, true, some, List, arith, ok}
use reearth_accounts.Prelude.Lists.{length}
use reearth_accounts.User.Password.{
  PasswordEncoder, byte_len, validate_password_format, validate_password_format_iff,
  new_encoded_password, verify_password,
}
use reearth_accounts.User.Account.{User, set_password, match_password}

-- What the program relies on of its encoder (bcrypt's): what it stores is not empty, and is
-- verified by the password that it was made of.
pub record IsEncoder (enc : PasswordEncoder) : Type 0 where
  pub verify-encode : (pass p : List ℕ) → enc.encode pass ≡ ok p → enc.verify pass p ≡ ok true
  pub encode_nonempty : (pass p : List ℕ) → enc.encode pass ≡ ok p → 0 < length p

module _ (is_number is_upper is_lower : ℕ → Bool) (enc : PasswordEncoder) where
  -- A password of the right format has at least 8 bytes.
  pos-byte_len :
      (pass : List ℕ)
      → validate_password_format is_number is_upper is_lower pass ≡ ok tt
      → 8 ≤ byte_len pass
  pos-byte_len pass h = ((validate_password_format_iff is_number is_upper is_lower pass).0 h).0

  -- With such an encoder, a password that `SetPassword` accepts is one that `MatchPassword` then
  -- matches; it had the right format.
  pub match_password-set_password :
      (laws : IsEncoder enc) (u u' : User) (pass : List ℕ) (now : ℕ)
      → set_password is_number is_upper is_lower enc u pass now ≡ ok u'
      → (match_password enc (some u') pass ≡ ok true)
        × (validate_password_format is_number is_upper is_lower pass ≡ ok tt)
  unfolding set_password match_password verify_password new_encoded_password
  match_password-set_password laws u u' pass now h = ground (
    arith,
    laws.verify-encode pass u'.password,
    laws.encode_nonempty pass u'.password,
    pos-byte_len pass,
  )
