-- ===== src/User/Password.antt =====
-- server/pkg/user/password.go. A password is the list of its runes (of valid UTF-8), a stored one
-- the list of its bytes. The tests of package unicode are the arguments `is_number`, `is_upper` and
-- `is_lower`; the encoder is the interface `PasswordEncoder`.
use reearth_accounts.Prelude.{
  ℕ, ◌+◌, ◌≤◌, ◌≡◌, ◌↔◌, Bool, true, false, not, ◌&&◌, ◌||◌, List, [], ◌∷◌, ◌==◌, ltb,
  if◌then◌else◌, arith, Result, ok, err, ◌>>◌, password_length, password_lower, password_upper,
  password_number, encoding_password,
}
use reearth_accounts.Prelude.Lists.{length, some_where}

-- `PasswordEncoder`
pub record PasswordEncoder : Type 0 where
  pub encode : List ℕ → Result (List ℕ)
  pub verify : List ℕ → List ℕ → Result Bool

-- The bytes of a rune in UTF-8
abbrev rune_len : ℕ → ℕ
rune_len c = if ltb c 0x80 then 1 else if ltb c 0x800 then 2 else if ltb c 0x10000 then 3 else 4

-- `len(pass)`
abbrev pub byte_len : List ℕ → ℕ
byte_len [] = 0
byte_len (c ∷ cs) = rune_len c + byte_len cs

-- `hasNum`, `hasUpper`, `hasLower`
pub record Classes : Type 0 where
  pub has_num : Bool
  pub has_upper : Bool
  pub has_lower : Bool

module _ (is_number is_upper is_lower : ℕ → Bool) where
  -- One round of the loop of `ValidatePasswordFormat`
  abbrev classify : Classes → ℕ → Classes
  classify k c =
      if is_number c
      then record k { has_num = true }
      else if is_upper c
      then record k { has_upper = true }
      else if is_lower c || c == b' '
      then record k { has_lower = true }
      else k

  abbrev classify_all : Classes → List ℕ → Classes
  classify_all k [] = k
  classify_all k (c ∷ cs) = classify_all (classify k c) cs

  -- `ValidatePasswordFormat`
  unfoldable pub validate_password_format : List ℕ → Result (Unit {0})
  validate_password_format pass =
      let k =
        classify_all (record { has_num = false; has_upper = false; has_lower = false }) pass in
      if ltb (byte_len pass) 8
      then err password_length
      else if not k.has_lower
      then err password_lower
      else if not k.has_upper
      then err password_upper
      else if not k.has_num
      then err password_number
      else ok tt

  -- `NewEncodedPassword`
  unfoldable pub new_encoded_password : PasswordEncoder → List ℕ → Result (List ℕ)
  new_encoded_password enc pass = do
    validate_password_format pass
    elim (enc.encode pass) [ ok got ↦ ok got | err e ↦ err encoding_password ]

  abbrev pub counts_upper : ℕ → Bool
  counts_upper c = not (is_number c) && is_upper c

  abbrev pub counts_lower : ℕ → Bool
  counts_lower c = not (is_number c) && not (is_upper c) && (is_lower c || c == b' ')

  classify_all_lem :
      (k : Classes) (cs : List ℕ)
      → ((classify_all k cs).has_num ≡ (k.has_num || some_where is_number cs))
        × ((classify_all k cs).has_upper ≡ (k.has_upper || some_where counts_upper cs))
        × ((classify_all k cs).has_lower ≡ (k.has_lower || some_where counts_lower cs))
  classify_all_lem k [] = ground arith
  classify_all_lem k (c ∷ cs) = ground (arith, classify_all_lem (classify k c) cs)

  pub validate_password_format_iff :
      (pass : List ℕ)
      → (validate_password_format pass ≡ ok tt) ↔ (
          (8 ≤ byte_len pass)
          × (some_where is_number pass ≡ true)
          × (some_where counts_upper pass ≡ true)
          × (some_where counts_lower pass ≡ true))
  unfolding validate_password_format
  validate_password_format_iff pass =
      let start : Classes = record { has_num = false; has_upper = false; has_lower = false } in
      (
        λ h. ground (arith, classify_all_lem start pass),
        λ h. ground (arith, classify_all_lem start pass),
      )

-- `EncodedPassword.Verify`
unfoldable pub verify_password : PasswordEncoder → List ℕ → List ℕ → Result Bool
verify_password enc p to_verify =
    if byte_len to_verify == 0 || length p == 0 then ok false else enc.verify to_verify p
