-- ===== src/AdminUser/Tests.antt =====
-- The theorems on admin users at concrete ones
use reearth_accounts.Prelude.{
  ℕ, ◌≤◌, ◌≡◌, refl, arith, some, List, [], ◌∷◌, ltb, err, cannot_modify_self,
}
use reearth_accounts.AdminUser.{
  AdminUser, MailText, pending, approved, system_admin, viewer, approve, reject,
}
use reearth_accounts.AdminUser.Life.{IsConsistent, Step, Reach, Reach-IsConsistent}
use reearth_accounts.AdminUser.Memory.{Data, IdOrder, save}
use reearth_accounts.AdminUser.Memory.Unique.{IsKeyed, HasDistinctEmails, save-HasDistinctEmails}
use reearth_accounts.AdminUser.UseCase.{memory_repo, reject_admin, set_role_admin}
use reearth_accounts.AdminUser.UseCase.Guards.{
  count_approved, count_system_admins, reject_admin_keeps_approved,
  set_role_admin_keeps_system_admin,
}

abbrev applicant : AdminUser
applicant = record {
  approved_at = 0;
  approved_by = 0;
  email = "a@b.c";
  id = 1;
  name = "Ann";
  picture_url = "";
  role = "";
  status = "";
  updated_at = 0;
}

abbrev mail : MailText
mail = record { parse_address = λ s. some s; lower = λ s. s; trim = λ s. s }

abbrev waiting : AdminUser
waiting = record applicant { status = pending; updated_at = 3 }

waiting-IsConsistent : IsConsistent waiting
waiting-IsConsistent = record {
  status = refl;
  role = refl;
  approved_at = refl;
  pending_at = refl;
  pending_by = refl;
}

abbrev life : AdminUser → AdminUser
life u = reject (approve u 9 4) 5

lives : (u : AdminUser) → Reach u (life u)
lives u =
    Reach.next (Reach.next Reach.here (Step.approved_by u 9 4 (omega arith)))
      (Step.rejected_at (approve u 9 4) 5)

Reach-IsConsistent_example : IsConsistent (life waiting)
Reach-IsConsistent_example = Reach-IsConsistent (lives waiting) waiting-IsConsistent

abbrev admin : AdminUser
admin = record waiting { status = approved; approved_at = 3; role = system_admin }

abbrev stored : Data
stored = (1, admin) ∷ []

stored-IsKeyed : IsKeyed stored
stored-IsKeyed i u e = ground arith

stored-HasDistinctEmails : HasDistinctEmails stored
stored-HasDistinctEmails i j u v p q same = ground arith

abbrev other : AdminUser
other = record waiting { id = 2; email = "a@b.c" }

save-HasDistinctEmails_example :
    IsKeyed (save stored other).1 × HasDistinctEmails (save stored other).1
save-HasDistinctEmails_example =
    save-HasDistinctEmails stored other stored-IsKeyed stored-HasDistinctEmails

abbrev numbers : List ℕ
numbers = 5 ∷ 6 ∷ 7 ∷ []

abbrev order : IdOrder
order = record { created = λ i. i; earlier = λ a b. ltb a b }

reject_admin_keeps_approved_example :
    (1 ≤ count_approved (reject_admin (memory_repo order) stored 7 1 8).1)
    × (reject_admin (memory_repo order) stored 7 7 8 ≡ (err cannot_modify_self, stored))
reject_admin_keeps_approved_example =
    reject_admin_keeps_approved order stored 7 1 8 stored-IsKeyed (omega arith)

set_role_admin_keeps_system_admin_example :
    1 ≤ count_system_admins (set_role_admin (memory_repo order) stored 1 viewer 8).1
set_role_admin_keeps_system_admin_example =
    set_role_admin_keeps_system_admin order stored 1 viewer 8 stored-IsKeyed (omega arith)
