-- ===== src/UserUseCase/MultiUser.antt =====
-- server/internal/usecase/repo/multiuser.go: several repositories of users as one
use reearth_accounts.Prelude.{
  ℕ, String, ◌≡◌, refl, ◌↔◌, Bool, true, false, Option, none, some, List, [], ◌∷◌, ◌++◌, Error,
  Result, ok, err, not_found, no_repo, arith, ap, Bool-cases, inl, inr, if◌then◌else◌,
}
use reearth_accounts.Prelude.Lists.{length}
use reearth_accounts.User.Account.{User}
use reearth_accounts.AdminUser.Memory.{Pagination, PageInfo}
use reearth_accounts.Action.{Action, lift, reads}
use reearth_accounts.Interactor.Guard.{is_not_found}

-- `user.Repo` over a store
pub record UserRepo (S : Type 0) : Type 0 where
  pub find_all : S → Result (List User)
  pub find_all_with_pagination :
      Option String → String → Option Pagination → S → Result (List User × PageInfo)
  pub find_by_id : ℕ → S → Result User
  pub find_by_ids : List ℕ → S → Result (List User)
  pub find_by_ids_with_pagination :
      List ℕ → Option String → Option Pagination → S → Result (List User × PageInfo)
  pub find_by_sub : String → S → Result User
  pub find_by_email : String → S → Result User
  pub find_by_name : String → S → Result User
  pub find_by_alias : String → S → Result User
  pub find_by_name_or_alias : String → S → Result (List User)
  pub find_by_name_or_email : String → S → Result User
  pub search_by_keyword : String → S → Result (List User)
  pub find_by_verification : String → S → Result User
  pub find_by_password_reset_request : String → S → Result User
  pub find_by_sub_or_create : User → String → Action S User
  pub create : User → Action S (Unit {0})
  pub save : User → Action S (Unit {0})
  pub remove : ℕ → Action S (Unit {0})

only_not_found : (e : Error) → is_not_found e ≡ true → e ≡ not_found
only_not_found e h = ground arith

abbrev says_missing : Result User → Bool
says_missing (ok u) = false
says_missing (err e) = is_not_found e

module _ {S : Type 0} where
  -- The loop of `FindAll`, `FindByIDs` and `SearchByKeyword`
  abbrev pub together : (UserRepo S → Result (List User)) → List (UserRepo S) → Result (List User)
  together f [] = ok []
  together f (r ∷ rs) =
      let rest = together f rs in
      elim (f r) [ err e ↦ err e | ok us ↦ elim rest [ err e ↦ err e | ok vs ↦ ok (us ++ vs) ] ]

  -- The loop of `FindByNameOrAlias`, which passes over a repository that finds nobody
  abbrev pub together_found :
      (UserRepo S → Result (List User)) → List (UserRepo S) → Result (List User)
  together_found f [] = ok []
  together_found f (r ∷ rs) =
      let rest = together_found f rs in
      elim (f r) [
        | err e ↦ if is_not_found e then rest else err e
        | ok us ↦ elim rest [ err e ↦ err e | ok vs ↦ ok (us ++ vs) ]
      ]

  -- The loops over pages: the users so far, and the information of the last page
  abbrev pub paged :
      (UserRepo S → Result (List User × PageInfo))
      → List (UserRepo S)
      → List User
      → Option PageInfo
      → Result (List User × Option PageInfo)
  paged f [] us pi = ok (us, pi)
  paged f (r ∷ rs) us pi = elim (f r) [
    | err e ↦ if is_not_found e then paged f rs us pi else err e
    | ok (vs, qi) ↦ paged f rs (us ++ vs) (some qi)
  ]

  -- `findOne`
  unfoldable pub find_one : (UserRepo S → Result User) → List (UserRepo S) → Result (Option User)
  find_one f [] = ok none
  find_one f (r ∷ rs) =
      let rest = find_one f rs in
      elim (f r) [ ok u ↦ ok (some u) | err e ↦ if is_not_found e then rest else err e ]

  -- `first` and `first2`
  unfoldable pub first : {A : Type 0} → (UserRepo S → Action S A) → List (UserRepo S) → Action S A
  first f [] = lift (err no_repo)
  first f (r ∷ rs) = f r

  -- Every repository answers that there is nobody.
  abbrev pub AllMissing : (UserRepo S → Result User) → List (UserRepo S) → Type 0
  AllMissing f [] = Unit
  AllMissing f (r ∷ rs) = (f r ≡ err not_found) × AllMissing f rs

  -- `findOne` gives nil without an error exactly when every repository answers not found.
  pub find_one-none :
      (f : UserRepo S → Result User) (rs : List (UserRepo S))
      → (find_one f rs ≡ ok none) ↔ AllMissing f rs
  unfolding find_one
  find_one-none f [] = (λ h. tt, λ h. refl)
  find_one-none f (r ∷ rs) = answered (f r) (find_one-none f rs)
    where
      answered :
          (a : Result User)
          → ((find_one f rs ≡ ok none) ↔ AllMissing f rs)
          → (elim a [ ok u ↦ ok (some u) | err e ↦ if is_not_found e then find_one f rs else err e ]
              ≡ ok none)
            ↔ ((a ≡ err not_found) × AllMissing f rs)
      answered (ok u) h = (λ e. absurd (ground arith), λ e. absurd (ground arith))
      answered (err x) h = elim (Bool-cases (is_not_found x)) [
        | inl missing ↦ (
          λ e. (ap err (only_not_found x missing), h.0 (rw missing at e)),
          λ e. rw missing (h.1 e.1),
        )
        | inr other ↦ (
          λ e. absurd (ground (arith, rw other at e)),
          λ e. absurd (ground (arith, ap says_missing e.0)),
        )
      ]

module _ {S : Type 0} (rs : List (UserRepo S)) where
  -- `FindAll`
  abbrev pub find_all : S → Result (List User)
  find_all s = together (λ r. r.find_all s) rs

  -- What `FindAllWithPagination` gives where no repository has a page
  abbrev or_own_info : Result (List User × Option PageInfo) → Result (List User × PageInfo)
  or_own_info (err e) = err e
  or_own_info (ok (us, some pi)) = ok (us, pi)
  or_own_info (ok (us, none)) =
      ok (us, record { total_count = length us; has_next = false; has_prev = false })

  -- `FindAllWithPagination`
  abbrev pub find_all_with_pagination :
      Option String → String → Option Pagination → S → Result (List User × PageInfo)
  find_all_with_pagination keyword status pagination s =
      or_own_info (paged (λ r. r.find_all_with_pagination keyword status pagination s) rs [] none)

  -- `FindByID`
  abbrev pub find_by_id : ℕ → S → Result (Option User)
  find_by_id id s = find_one (λ r. r.find_by_id id s) rs

  -- `FindByIDs`
  abbrev pub find_by_ids : List ℕ → S → Result (List User)
  find_by_ids ids s = together (λ r. r.find_by_ids ids s) rs

  -- `FindByIDsWithPagination`
  abbrev pub find_by_ids_with_pagination :
      List ℕ → Option String → Option Pagination → S → Result (List User × Option PageInfo)
  find_by_ids_with_pagination ids alias pagination s =
      paged (λ r. r.find_by_ids_with_pagination ids alias pagination s) rs [] none

  -- `FindBySub`
  abbrev pub find_by_sub : String → S → Result (Option User)
  find_by_sub sub s = find_one (λ r. r.find_by_sub sub s) rs

  -- `FindByEmail`
  abbrev pub find_by_email : String → S → Result (Option User)
  find_by_email email s = find_one (λ r. r.find_by_email email s) rs

  -- `FindByName`
  abbrev pub find_by_name : String → S → Result (Option User)
  find_by_name name s = find_one (λ r. r.find_by_name name s) rs

  -- `FindByAlias`
  abbrev pub find_by_alias : String → S → Result (Option User)
  find_by_alias alias s = find_one (λ r. r.find_by_alias alias s) rs

  -- `FindByNameOrAlias`
  abbrev pub find_by_name_or_alias : String → S → Result (List User)
  find_by_name_or_alias given s = together_found (λ r. r.find_by_name_or_alias given s) rs

  -- `FindByNameOrEmail`
  abbrev pub find_by_name_or_email : String → S → Result (Option User)
  find_by_name_or_email given s = find_one (λ r. r.find_by_name_or_email given s) rs

  -- `SearchByKeyword`
  abbrev pub search_by_keyword : String → S → Result (List User)
  search_by_keyword keyword s = together (λ r. r.search_by_keyword keyword s) rs

  -- `FindByVerification`
  abbrev pub find_by_verification : String → Action S User
  find_by_verification code = first (λ r. reads (r.find_by_verification code)) rs

  -- `FindByPasswordResetRequest`
  abbrev pub find_by_password_reset_request : String → Action S User
  find_by_password_reset_request token =
      first (λ r. reads (r.find_by_password_reset_request token)) rs

  -- `FindBySubOrCreate`
  abbrev pub find_by_sub_or_create : User → String → Action S User
  find_by_sub_or_create u sub = first (λ r. r.find_by_sub_or_create u sub) rs

  -- `Create`
  abbrev pub create : User → Action S (Unit {0})
  create u = first (λ r. r.create u) rs

  -- `Save`
  abbrev pub save : User → Action S (Unit {0})
  save u = first (λ r. r.save u) rs

  -- `Remove`
  abbrev pub remove : ℕ → Action S (Unit {0})
  remove id = first (λ r. r.remove id) rs
