-- ===== src/AdminUser/Building.antt =====
-- server/pkg/adminuser/builder.go: what `Build` keeps
use reearth_accounts.Prelude.{
  ℕ, String, ◌≡◌, Bool, true, false, str_eq, Result, ok, err, arith, invalid_id, empty_name, ◌∙◌,
  ◌>>=◌, if◌then◌else◌,
}
use reearth_accounts.AdminUser.{
  AdminUser, MailText, pending, build, check_enums, or_pending, normalize_and_validate_email,
}

check_enums_lem :
    (u v : AdminUser) (now : ℕ)
    → check_enums u now ≡ ok v
    → (v.role ≡ u.role) × (v.status ≡ u.status)
unfolding build
check_enums_lem u v now e = ground arith

or_pending_lem :
    (u : AdminUser)
    → ((or_pending u).role ≡ u.role)
      × ((or_pending u).status ≡ (if str_eq u.status "" then pending else u.status))
unfolding build
or_pending_lem u = ground arith

-- `Build` by its two first tests and the e-mail address
checked_lem :
    (no_id no_name : Bool) (email : Result String) (u v : AdminUser) (now : ℕ)
    → (if no_id
        then err invalid_id
        else if no_name
        then err empty_name
        else (email >>= λ s. check_enums (or_pending (record u { email = s })) now))
      ≡ ok v
    → (v.role ≡ u.role) × (v.status ≡ (if str_eq u.status "" then pending else u.status))
checked_lem true n email u v now e = cc
checked_lem false true email u v now e = cc
checked_lem false false (err x) u v now e = cc
checked_lem false false (ok s) u v now e =
    let (role, status) = check_enums_lem (or_pending (record u { email = s })) v now e in
    let (role0, status0) = or_pending_lem (record u { email = s }) in
    (role ∙ role0, status ∙ status0)

-- `Build` keeps the role, and the status if there is one.
pub built_lem :
    (is_nil : ℕ → Bool) (m : MailText) (u v : AdminUser) (now : ℕ)
    → build is_nil m u now ≡ ok v
    → (v.role ≡ u.role) × (v.status ≡ (if str_eq u.status "" then pending else u.status))
unfolding build
built_lem is_nil m u v now e =
    checked_lem (is_nil u.id) (str_eq u.name "") (normalize_and_validate_email m u.email) u v now e
