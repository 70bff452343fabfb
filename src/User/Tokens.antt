-- ===== src/User/Tokens.antt =====
-- server/pkg/user/verification.go and password_reset.go. Times are nanoseconds since the zero time;
-- `none` is a nil pointer.
use reearth_accounts.Prelude.{
  ℕ, ◌+◌, ◌*◌, ◌≤◌, ◌<◌, ◌≡◌, ◌↔◌, String, Bool, true, false, ◌&&◌, Option, none, some, str_eq, ltb,
  arith, eq_iff,
}

-- `time.Hour`
abbrev pub hour : ℕ
hour = 3600 * 1000000000

pub record Verification : Type 0 where
  pub verified : Bool
  pub code : String
  pub expiration : ℕ

-- `NewVerification`, with the code that `GenerateVerificationCode` gives
unfoldable pub new_verification : String → ℕ → Verification
new_verification code now = record { verified = false; code = code; expiration = now + hour * 24 }

-- `IsVerified`
unfoldable pub is_verified : Option Verification → Bool
is_verified none = false
is_verified (some v) = v.verified

-- `IsExpired`
unfoldable pub is_expired : Option Verification → ℕ → Bool
is_expired none now = true
is_expired (some v) now = ltb v.expiration now

-- `SetVerified`
unfoldable pub set_verified : Option Verification → Bool → Option Verification
set_verified none b = none
set_verified (some v) b = some (record v { verified = b })

pub record PasswordReset : Type 0 where
  pub token : String
  pub created_at : ℕ

-- `NewPasswordReset`, with the token that `generateToken` gives
abbrev pub new_password_reset : String → ℕ → PasswordReset
new_password_reset token now = record { token = token; created_at = now }

-- `PasswordReset.Validate`
unfoldable pub validate : Option PasswordReset → String → ℕ → Bool
validate none token now = false
validate (some pr) token now = str_eq pr.token token && ltb now (pr.created_at + 24 * hour)

-- A new verification code expires after its 24 hours and not at their end, when a password reset
-- token of the same time is no longer valid; the token is valid exactly before.
pub expiry_lem :
    (code token given : String) (start now : ℕ)
    → ((is_expired (some (new_verification code start)) now ≡ false) ↔ (now ≤ start + 24 * hour))
      × ((validate (some (new_password_reset token start)) given now ≡ true)
          ↔ ((token ≡ given) × (now < start + 24 * hour)))
unfolding is_expired new_verification validate
expiry_lem code token given start now = (
  (λ h. ground arith, λ h. ground arith),
  (λ h. ground (arith, eq_iff token given), λ h. ground (arith, eq_iff token given)),
)
