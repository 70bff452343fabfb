-- ===== src/AdminUser/Life.antt =====
-- The life of an admin user: the calls that change one, as steps, and what they keep.
use reearth_accounts.Prelude.{
  ℕ, String, ◌≡◌, ◌<◌, refl, ◌∙◌, subst, inl, inr, Bool, true, false, arith, ◌==◌, str_eq, eq_iff,
  not, ◌||◌, ◌&&◌, if◌then◌else◌, Result, ok, err, Bool-cases, ◌>>=◌, invalid_id, empty_name,
}
use reearth_accounts.AdminUser.{
  AdminUser, MailText, pending, approved, status_valid, role_valid, approve, reject, set_role,
  update_profile, build, check_enums, settle_approval, or_pending, or_now,
  normalize_and_validate_email,
}

-- The status is a known one, the role is known or unset, an approved user has a time of approval,
-- and a pending one has neither a time nor an approver.
pub record IsConsistent (u : AdminUser) : Type 0 where
  pub status : status_valid u.status ≡ true
  pub role : (str_eq u.role "" || role_valid u.role) ≡ true
  pub approved_at : (str_eq u.status approved && u.approved_at == 0) ≡ false
  pub pending_at : (str_eq u.status pending && not (u.approved_at == 0)) ≡ false
  pub pending_by : (str_eq u.status pending && not (u.approved_by == 0)) ≡ false

approved_not_pending : (s : String) → str_eq s approved ≡ true → str_eq s pending ≡ false
approved_not_pending s e = rw ((eq_iff s approved).0 e)

settle_approval-IsConsistent :
    (u : AdminUser)
    → status_valid u.status ≡ true
    → (str_eq u.role "" || role_valid u.role) ≡ true
    → 0 < u.updated_at
    → IsConsistent (settle_approval u)
unfolding settle_approval
settle_approval-IsConsistent u s r t = elim (Bool-cases (str_eq u.status approved)) [
  | inl e ↦ elim (Bool-cases (u.approved_at == 0)) [
    | inl z ↦ rw (e, z, settle_approval) (ground (arith, approved_not_pending u.status))
    | inr z ↦ rw (e, z, settle_approval) (ground (arith, approved_not_pending u.status))
  ]
  | inr e ↦ elim (Bool-cases (str_eq u.status pending)) [
    | inl p ↦ rw (e, p, settle_approval) (ground arith)
    | inr p ↦ rw (e, p, settle_approval) (ground arith)
  ]
]

-- What `Build` makes behind its tests
settled-IsConsistent :
    (u : AdminUser) (now : ℕ)
    → 0 < now
    → status_valid u.status ≡ true
    → (str_eq u.role "" || role_valid u.role) ≡ true
    → IsConsistent (settle_approval (or_now now u))
unfolding or_now
settled-IsConsistent u now t s r = elim (Bool-cases (u.updated_at == 0)) [
  | inl z ↦ rw (z, or_now) (settle_approval-IsConsistent (record u { updated_at = now }) s r t)
  | inr z ↦ rw (z, or_now) (settle_approval-IsConsistent u s r (ground arith))
]

check_enums-IsConsistent :
    (u v : AdminUser) (now : ℕ) → 0 < now → check_enums u now ≡ ok v → IsConsistent v
check_enums-IsConsistent u v now t e = elim (Bool-cases (status_valid u.status)) [
  | inr s ↦ cc (rw (s, check_enums) at e)
  | inl s ↦ elim (Bool-cases (str_eq u.role "" || role_valid u.role)) [
    | inr r ↦ ground arith
    | inl r ↦ subst IsConsistent (ground arith) (settled-IsConsistent u now t s r)
  ]
]

-- `Build` by its two first tests and the e-mail address
checked-IsConsistent :
    (no_id no_name : Bool) (email : Result String) (u v : AdminUser) (now : ℕ)
    → 0 < now
    → (if no_id
        then err invalid_id
        else if no_name
        then err empty_name
        else (email >>= λ s. check_enums (or_pending (record u { email = s })) now))
      ≡ ok v
    → IsConsistent v
checked-IsConsistent true n email u v now t e = cc
checked-IsConsistent false true email u v now t e = cc
checked-IsConsistent false false (err x) u v now t e = cc
checked-IsConsistent false false (ok s) u v now t e =
    check_enums-IsConsistent (or_pending (record u { email = s })) v now t e

-- If `Build` succeeds at a time that is not zero, the admin user is consistent.
pub build-IsConsistent :
    (is_nil : ℕ → Bool) (m : MailText) (u v : AdminUser) (now : ℕ)
    → 0 < now
    → build is_nil m u now ≡ ok v
    → IsConsistent v
unfolding build
build-IsConsistent is_nil m u v now t e =
    checked-IsConsistent (is_nil u.id) (str_eq u.name "") (normalize_and_validate_email m u.email) u
      v now t e

-- The clock is never at the zero time.
pub data Step : AdminUser → AdminUser → Type 0 where
  approved_by : (u : AdminUser) (by now : ℕ) → 0 < now → Step u (approve u by now)
  rejected_at : (u : AdminUser) (now : ℕ) → Step u (reject u now)
  role_set : (u v : AdminUser) (r : String) (now : ℕ) → set_role u r now ≡ ok v → Step u v
  profile_updated :
      (u v : AdminUser) (name url : String) (now : ℕ)
      → update_profile u name url now ≡ ok v
      → Step u v

pub data Reach (u : AdminUser) : AdminUser → Type 0 where
  here : Reach u u
  next : {v w : AdminUser} → Reach u v → Step v w → Reach u w

Step-IsConsistent : {u v : AdminUser} → Step u v → IsConsistent u → IsConsistent v
unfolding approve reject set_role update_profile
Step-IsConsistent (approved_by u by now t) c = elim (Bool-cases (str_eq u.status approved)) [
  | inl e ↦ rw (e, approve) c
  | inr e ↦ rw (e, approve) (ground arith)
]
Step-IsConsistent (rejected_at u now) c = ground arith
Step-IsConsistent (role_set u v r now e) c = ground arith
Step-IsConsistent (profile_updated u v name url now e) c = ground arith

-- An admin user who is consistent stays so under any sequence of approvals, rejections, changes of
-- role and updates of the profile.
pub Reach-IsConsistent : {u v : AdminUser} → Reach u v → IsConsistent u → IsConsistent v
Reach-IsConsistent here c = c
Reach-IsConsistent (next r s) c = Step-IsConsistent s (Reach-IsConsistent r c)

Step-not_pending :
    {u v : AdminUser}
    → Step u v
    → str_eq u.status pending ≡ false
    → (str_eq v.status pending ≡ false) × (v.id ≡ u.id) × (v.email ≡ u.email)
unfolding approve reject set_role update_profile
Step-not_pending (approved_by u by now t) h = elim (Bool-cases (str_eq u.status approved)) [
  | inl e ↦ rw (e, approve) (h, refl, refl)
  | inr e ↦ rw (e, approve) (refl, refl, refl)
]
Step-not_pending (rejected_at u now) h = ground arith
Step-not_pending (role_set u v r now e) h = ground arith
Step-not_pending (profile_updated u v name url now e) h = ground arith

-- An admin user who is not pending never becomes pending, and keeps identifier and e-mail address.
pub Reach-not_pending :
    {u v : AdminUser}
    → Reach u v
    → str_eq u.status pending ≡ false
    → (str_eq v.status pending ≡ false) × (v.id ≡ u.id) × (v.email ≡ u.email)
Reach-not_pending here h = (h, refl, refl)
Reach-not_pending (next r s) h =
    let (settled, same_id, same_email) = Reach-not_pending r h in
    let (settled', same_id', same_email') = Step-not_pending s settled in
    (settled', same_id' ∙ same_id, same_email' ∙ same_email)

-- Approving is idempotent: the approver and the time of the first approval stay.
pub approve-approve :
    (u : AdminUser) (by by' now now' : ℕ) → approve (approve u by now) by' now' ≡ approve u by now
unfolding approve
approve-approve u by by' now now' = elim (Bool-cases (str_eq u.status approved)) [
  | inl e ↦ rw (e, approve) (rw e)
  | inr e ↦ rw (e, approve)
]
