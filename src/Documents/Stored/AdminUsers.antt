-- ===== src/Documents/Stored/AdminUsers.antt =====
-- An admin user who is stored and loaded: mongodoc/adminuser.go and pgdoc/adminuser.go.
use reearth_accounts.Prelude.{
  ℕ, String, ◌<◌, ◌≡◌, ◌≢◌, refl, Bool, true, none, some, if◌then◌else◌, ◌∙◌, ok, arith, eq_iff,
  str_eq, ◌==◌, Bool-cases, inl, inr, ◌||◌,
}
use reearth_accounts.Documents.Texts.{Texts, IsTexts, or_now_set}
use reearth_accounts.Documents.Mongo.AdminUsers as M
use reearth_accounts.Documents.Mongo.AdminUsers.{or_fail}
use reearth_accounts.Documents.Postgres.AdminUsers as P
use reearth_accounts.AdminUser.{
  AdminUser, MailText, status_valid, status_from, role_valid, role_from,
  normalize_and_validate_email,
}
use reearth_accounts.AdminUser.Rebuilt.{build_fixed}
use reearth_accounts.AdminUser.Life.{IsConsistent}
use reearth_accounts.AdminUser.Setters.{with_role, with_approved_by, with_approved_at}

status_read :
    (t : Texts) (s : String)
    → t.lower s ≡ s
    → status_valid s ≡ true
    → or_fail (status_from t.lower s) ≡ ok s
unfolding status_from
status_read t s e v = rw e (rw v refl)

read_role_fixed :
    (t : Texts) (is_nil : ℕ → Bool) (b : AdminUser) (r : String)
    → t.lower r ≡ r
    → (str_eq r "" || role_valid r) ≡ true
    → b.role ≡ ""
    → M.read_role t is_nil b r ≡ ok (with_role b r)
unfolding role_from
read_role_fixed t is_nil b r e v z = elim (Bool-cases (str_eq r "")) [
  | inl n ↦ rw (e, n) (ground (arith, eq_iff r ""))
  | inr n ↦ rw (e, n) (ground arith)
]

read_approver_fixed :
    (t : Texts) (is_nil : ℕ → Bool) (b : AdminUser) (by : ℕ)
    → IsTexts t
    → is_nil by ≡ (by == 0)
    → b.approved_by ≡ 0
    → M.read_approver t is_nil b (M.approver_text t is_nil by) ≡ ok (with_approved_by b by)
read_approver_fixed t is_nil b by laws e z = elim (Bool-cases (by == 0)) [
  | inl n ↦ rw (e, n) (ground arith)
  | inr n ↦
      rw (e, n, laws.id_from-id_text by (ground arith))
        (ground (arith, eq_iff (t.id_text by) "", laws.id_text_ne by (ground arith)))
]

read_time_fixed :
    (b : AdminUser) (a : ℕ)
    → b.approved_at ≡ 0
    → P.read_time b (if a == 0 then none else some a) ≡ with_approved_at b a
read_time_fixed b a z = ground arith

-- An admin user who is consistent, with an identifier, a name, a normalised e-mail address, a time
-- of update and texts in small letters for the status and the role, is loaded from the document
-- and from the row as stored, if the zero identifier is the only empty one.
pub admin_user_stored :
    (t : Texts) (is_nil : ℕ → Bool) (m : MailText) (created : ℕ → ℕ) (u : AdminUser) (now now' : ℕ)
    → IsTexts t
    → ((i : ℕ) → is_nil i ≡ (i == 0))
    → IsConsistent u
    → 0 < u.id
    → u.name ≢ ""
    → normalize_and_validate_email m u.email ≡ ok u.email
    → 0 < u.updated_at
    → t.lower u.status ≡ u.status
    → t.lower u.role ≡ u.role
    → (M.model t is_nil m (some (M.new_admin_user t is_nil created u now).0) now' ≡ ok (some u))
      × (P.model t is_nil m (P.new_admin_user_row t is_nil created u) now' ≡ ok u)
unfolding M.model M.new_admin_user P.model P.new_admin_user_row
admin_user_stored t is_nil m created u now now' laws nil c id name email updated ls lr =
    let unranked = record u { role = ""; approved_by = 0 } in
    let unapproved = record u { approved_by = 0 } in
    let built = build_fixed is_nil m u now' c (nil u.id ∙ ground arith) name email updated in
    rw
      (
        laws.id_from-id_text u.id id,
        status_read t u.status ls c.status,
        or_now_set u.updated_at now updated,
        read_role_fixed t is_nil unranked u.role lr c.role refl,
        read_approver_fixed t is_nil unapproved u.approved_by laws (nil u.approved_by) refl,
        built,
      )
      (
        refl,
        rw
            (
              read_role_fixed t is_nil (record unranked { approved_at = 0 }) u.role lr c.role refl,
              read_time_fixed (record unapproved { approved_at = 0 }) u.approved_at refl,
              read_approver_fixed t is_nil unapproved u.approved_by laws (nil u.approved_by) refl,
              built,
            )
            refl,
      )
