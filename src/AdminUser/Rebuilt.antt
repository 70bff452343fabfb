-- ===== src/AdminUser/Rebuilt.antt =====
-- server/pkg/adminuser/builder.go: `Build` on a user whom it could have made.
use reearth_accounts.Prelude.{
  ℕ, String, ◌<◌, ◌≡◌, ◌≢◌, refl, Bool, true, false, ok, arith, eq_iff, str_eq, Bool-cases, inl,
  inr,
}
use reearth_accounts.AdminUser.{
  AdminUser, MailText, build, normalize_and_validate_email, settle_approval, or_pending,
  check_enums, status_valid,
}
use reearth_accounts.AdminUser.Life.{IsConsistent}

settle_approval_fixed : (u : AdminUser) → IsConsistent u → settle_approval u ≡ u
unfolding build
settle_approval_fixed u c = ground (arith, c.approved_at, c.pending_at, c.pending_by)

-- A known status is not the empty text.
valid_ne : (s : String) → status_valid s ≡ true → str_eq s "" ≡ false
valid_ne s h = elim (Bool-cases (str_eq s "")) [
  | inl e ↦ cc (rw ((eq_iff s "").0 e) at h)
  | inr e ↦ e
]

or_pending_fixed : (u : AdminUser) → IsConsistent u → or_pending u ≡ u
unfolding build
or_pending_fixed u c = rw (valid_ne u.status c.status, or_pending)

check_enums_fixed :
    (u : AdminUser) (now : ℕ) → IsConsistent u → 0 < u.updated_at → check_enums u now ≡ ok u
unfolding build
check_enums_fixed u now c updated = rw c.status (ground (arith, c.role, settle_approval_fixed u c))

-- `Build` gives back a user whom it could have made.
pub build_fixed :
    (is_nil : ℕ → Bool) (m : MailText) (u : AdminUser) (now : ℕ)
    → IsConsistent u
    → is_nil u.id ≡ false
    → u.name ≢ ""
    → normalize_and_validate_email m u.email ≡ ok u.email
    → 0 < u.updated_at
    → build is_nil m u now ≡ ok u
unfolding build
build_fixed is_nil m u now c id name email updated =
    rw (id, ne_test u.name name, email, or_pending_fixed u c, check_enums_fixed u now c updated)
      refl
  where
    ne_test : (s : String) → s ≢ "" → str_eq s "" ≡ false
    ne_test s h = ground (arith, eq_iff s "")
