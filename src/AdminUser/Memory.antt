-- ===== src/AdminUser/Memory.antt =====
-- server/internal/infrastructure/memory/adminuser.go: the repository of admin users in memory. A
-- user is stored and read as a copy, and each method holds the lock, so a call is one step.
pub mod Unique
use reearth_accounts.Prelude.{
  ℕ, ◌+◌, ◌-◌, String, Bool, true, false, not, ◌&&◌, ◌||◌, Option, none, some, List, [], ◌∷◌, ◌==◌,
  ltb, str_eq, if◌then◌else◌, Error, Result, ok, err, not_found, duplicated_admin_user,
  cursor_pagination_unsupported,
}
use reearth_accounts.Prelude.Dict.{Dict, lookup, insert}
use reearth_accounts.Prelude.Lists.{length, take, drop}
use reearth_accounts.AdminUser.{AdminUser, MailText, normalize_email, is_approved, system_admin}

abbrev pub Data : Type 0
Data = Dict AdminUser

-- The pages that `usecasex.Pagination` asks for
pub data Pagination : Type 0 where
  cursor : Pagination
  offset : ℕ → ℕ → Pagination

-- `ListFilter` of pkg/adminuser/repo.go
pub record ListFilter : Type 0 where
  pub status : Option String
  pub role : Option String
  pub pagination : Option Pagination

-- `usecasex.PageInfo` as far as it is used
pub record PageInfo : Type 0 where
  pub total_count : ℕ
  pub has_next : Bool
  pub has_prev : Bool

-- The loop of `FindByEmail`
abbrev first_with_email : String → Data → Result AdminUser
first_with_email e [] = err not_found
first_with_email e ((k, v) ∷ d) = if str_eq v.email e then ok v else first_with_email e d

-- `FindByEmail`
unfoldable pub find_by_email : MailText → Data → String → Result AdminUser
find_by_email m d email = first_with_email (normalize_email m email) d

-- `FindByID`
unfoldable pub find_by_id : Data → ℕ → Result AdminUser
find_by_id d id = elim (lookup id d) [ none ↦ err not_found | some v ↦ ok v ]

-- `FindByIDs`
unfoldable pub find_by_ids : Data → List ℕ → List AdminUser
find_by_ids d [] = []
find_by_ids d (id ∷ ids) =
    let rest = find_by_ids d ids in elim (lookup id d) [ none ↦ rest | some v ↦ v ∷ rest ]

-- `f.Status != nil && v.Status() != *f.Status`, turned round; so for the role.
abbrev pub fits : Option String → String → Bool
fits none s = true
fits (some t) s = str_eq s t

-- The loop of `List`
abbrev pub matching : ListFilter → Data → List AdminUser
matching f [] = []
matching f ((k, v) ∷ d) =
    let rest = matching f d in
    if fits f.status v.status && fits f.role v.role then v ∷ rest else rest

-- The order of `List`: by the time in the identifier, then by the identifier. `created` is
-- `Timestamp` and `earlier a b` is `a.Compare(b) < 0` of idx.ID.
pub record IdOrder : Type 0 where
  pub created : ℕ → ℕ
  pub earlier : ℕ → ℕ → Bool

abbrev less : IdOrder → AdminUser → AdminUser → Bool
less o u v =
    if o.created u.id == o.created v.id
    then o.earlier u.id v.id
    else ltb (o.created u.id) (o.created v.id)

-- `sort.SliceStable` as an insertion sort
abbrev pub place : IdOrder → AdminUser → List AdminUser → List AdminUser
place o u [] = u ∷ []
place o u (v ∷ vs) = let rest = place o u vs in if less o v u then v ∷ rest else u ∷ v ∷ vs

abbrev pub sort : IdOrder → List AdminUser → List AdminUser
sort o [] = []
sort o (u ∷ us) = place o u (sort o us)

-- `all[offset:end]` with the clipping before it, and the page's information
abbrev pub page : {A : Type 0} → List A → ℕ → ℕ → List A × PageInfo
page all off limit =
    let total = length all in
    let offset' = if ltb total off then total else off in
    let end = if ltb total (offset' + limit) then total else offset' + limit in
    (
      take (end - offset') (drop offset' all),
      record { total_count = total; has_next = ltb end total; has_prev = ltb 0 offset' },
    )

abbrev pub pages_of : {A : Type 0} → List A → Option Pagination → Result (List A × PageInfo)
pages_of all none =
    ok (all, record { total_count = length all; has_next = false; has_prev = false })
pages_of all (some cursor) = err cursor_pagination_unsupported
pages_of all (some (offset off limit)) = ok (page all off limit)

-- `List`
unfoldable pub list : IdOrder → Data → ListFilter → Result (List AdminUser × PageInfo)
list o d f = pages_of (sort o (matching f d)) f.pagination

-- Approved, and a system admin
abbrev pub is_approved_system_admin : AdminUser → Bool
is_approved_system_admin v = is_approved v && str_eq v.role system_admin

-- `ExistsApprovedSystemAdminExcept`, and the loop of `SaveGuardingLastSystemAdmin`
unfoldable pub exists_approved_system_admin_except : Data → ℕ → Bool
exists_approved_system_admin_except [] id = false
exists_approved_system_admin_except ((k, v) ∷ d) id =
    (not (k == id) && is_approved_system_admin v) || exists_approved_system_admin_except d id

-- The loop of `saveLocked`
abbrev pub email_taken : ℕ → String → Data → Bool
email_taken id e [] = false
email_taken id e ((k, v) ∷ d) = (not (k == id) && str_eq v.email e) || email_taken id e d

-- `Save` and `saveLocked`
unfoldable pub save : Data → AdminUser → Result (Unit {0}) × Data
save d u =
    if email_taken u.id u.email d then (err duplicated_admin_user, d) else (ok tt, insert u.id u d)

-- The two last steps of `SaveGuardingLastSystemAdmin`
abbrev saved_or_not : Result (Unit {0}) × Data → Result Bool × Data
saved_or_not (ok x, d) = (ok true, d)
saved_or_not (err e, d) = (err e, d)

-- `SaveGuardingLastSystemAdmin`
unfoldable pub save_guarding_last_system_admin : Data → AdminUser → Bool → Result Bool × Data
unfolding exists_approved_system_admin_except save
save_guarding_last_system_admin d u require_other =
    if not require_other
    then saved_or_not (save d u)
    else if not (exists_approved_system_admin_except d u.id)
    then (ok false, d)
    else saved_or_not (save d u)
