-- ===== src/User/Samples.antt =====
-- A password and an encoder for the tests
use reearth_accounts.Prelude.{
  ℕ, ◌≡◌, refl, Bool, true, false, ◌&&◌, List, [], ◌∷◌, ◌==◌, leb, arith, ok,
}
use reearth_accounts.User.Password.{PasswordEncoder}
use reearth_accounts.User.Credentials.{IsEncoder}

-- The classes of ASCII
abbrev pub digit : ℕ → Bool
digit c = leb 48 c && leb c 57

abbrev pub upper : ℕ → Bool
upper c = leb 65 c && leb c 90

abbrev pub lower : ℕ → Bool
lower c = leb 97 c && leb c 122

-- "Abcdefg1"
abbrev pub pass : List ℕ
pass = 65 ∷ 98 ∷ 99 ∷ 100 ∷ 101 ∷ 102 ∷ 103 ∷ 49 ∷ []

abbrev pub same_list : List ℕ → List ℕ → Bool
same_list [] [] = true
same_list [] (b ∷ bs) = false
same_list (a ∷ as') [] = false
same_list (a ∷ as') (b ∷ bs) = a == b && same_list as' bs

same_list_refl : (xs : List ℕ) → same_list xs xs ≡ true
same_list_refl [] = refl
same_list_refl (x ∷ xs) = ground (arith, same_list_refl xs)

-- An encoder that stores the password behind one byte
abbrev pub plain : PasswordEncoder
plain = record {
  encode = λ pass. ok (1 ∷ pass);
  verify = λ pass stored. ok (same_list (1 ∷ pass) stored);
}

pub plain-IsEncoder : IsEncoder plain
plain-IsEncoder = record {
  verify-encode = λ pass p e. ground (arith, same_list_refl pass);
  encode_nonempty = λ pass p e. ground arith;
}
