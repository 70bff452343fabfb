-- ===== src/Memory/Users.antt =====
-- server/internal/infrastructure/memory/user.go. `split` is what `strings.SplitN(sub, "|", 2)` gives,
-- and `earlier` is `a.Compare(b) < 0` of idx.ID.
use reearth_accounts.Prelude.{
  ℕ, String, Bool, true, false, ◌&&◌, ◌||◌, Option, none, some, List, [], ◌∷◌, str_eq, ltb, Error,
  Result, ok, err, not_found, failed, invalid_params, duplicated_user, if◌then◌else◌,
}
use reearth_accounts.Prelude.Dict.{Dict, lookup, has_key, insert, erase}
use reearth_accounts.Prelude.Idx.{Idx}
use reearth_accounts.Prelude.Lists.{length, select}
use reearth_accounts.User.Auth.{auth_from}
use reearth_accounts.User.Account.{User, contain_auth}
use reearth_accounts.AdminUser.Memory.{Pagination, PageInfo, pages_of}
use reearth_accounts.Memory.Texts.{
  Texts, first_value, all_values, listed_or_not_found, found_or_not_found, unless_failing,
  fits_status, keyword_of,
}

pub record Users : Type 0 where
  pub stored : Dict User
  pub failure : Option Error

-- The test of `FindAllWithPagination`
unfoldable pub is_listed : Texts → String → String → ℕ → User → Bool
is_listed t status kw id u =
    fits_status status u.deleted_at
    && (str_eq kw ""
        || t.has_text (t.lower u.name) kw
        || t.has_text (t.lower u.alias) kw
        || t.has_text (t.lower u.email) kw)

module _ (earlier : ℕ → ℕ → Bool) where
  abbrev place : User → List User → List User
  place u [] = u ∷ []
  place u (v ∷ vs) = let rest = place u vs in if earlier v.id u.id then v ∷ rest else u ∷ v ∷ vs

  -- `sort.SliceStable` by the identifier, as an insertion sort
  abbrev pub by_id : List User → List User
  by_id [] = []
  by_id (u ∷ us) = place u (by_id us)

-- The test of `FindByPasswordResetRequest`
abbrev pub has_reset_token : String → User → Bool
has_reset_token token u = elim u.password_reset [ none ↦ false | some r ↦ str_eq r.token token ]

-- The test of `FindByVerification`
abbrev pub has_code : String → User → Bool
has_code code u = elim u.verification [ none ↦ false | some v ↦ str_eq v.code code ]

-- The filter of `FindByIDsWithPagination` by an alias
abbrev pub named_like : Texts → Option String → User → Bool
named_like t none u = true
named_like t (some alias) u =
    t.has_text (t.lower u.name) (t.lower (t.trim alias))
    || t.has_text (t.lower u.alias) (t.lower (t.trim alias))

-- The page of `FindByIDsWithPagination`: `users[0]` of an empty list panics.
abbrev pub page_of : List User → Result (List User × PageInfo)
page_of [] = err failed
page_of (u ∷ us) =
    ok (u ∷ us, record { total_count = length (u ∷ us); has_next = true; has_prev = true })

abbrev paged : Texts → Option String → List User → Result (List User × PageInfo)
paged t alias [] = err not_found
paged t alias (u ∷ us) = page_of (select (named_like t alias) (u ∷ us))

-- `if len(res) == 0 { return nil, rerror.ErrNotFound }`
abbrev some_or_not_found : List User → Result (List User)
some_or_not_found [] = err not_found
some_or_not_found (u ∷ us) = ok (u ∷ us)

module _ (r : Users) where
  -- `FindAll`
  unfoldable pub find_all : Result (List User)
  find_all = unless_failing r.failure (ok (all_values (λ k u. true) r.stored))

  -- `FindAllWithPagination`
  unfoldable pub find_all_with_pagination :
      Texts
      → (ℕ → ℕ → Bool)
      → Option String
      → String
      → Option Pagination
      → Result (List User × PageInfo)
  unfolding is_listed
  find_all_with_pagination t earlier keyword status pagination = unless_failing r.failure (
      pages_of (by_id earlier (all_values (is_listed t status (keyword_of t keyword)) r.stored))
        pagination)

  -- `FindByIDs`
  unfoldable pub find_by_ids : Idx → List ℕ → Result (List User)
  find_by_ids x ids =
      unless_failing r.failure (ok (all_values (λ k (u : User). x.has ids k) r.stored))

  -- `FindByIDsWithPagination`, which reads nothing of the pagination
  unfoldable pub find_by_ids_with_pagination :
      Texts → Idx → List ℕ → Option String → Result (List User × PageInfo)
  find_by_ids_with_pagination t x ids alias =
      unless_failing r.failure (paged t alias (all_values (λ k (u : User). x.has ids k) r.stored))

  -- One who passes a test, in the searches by a text: an empty text is refused.
  abbrev find_one : String → (User → Bool) → Result User
  find_one given p =
      unless_failing r.failure (
        if str_eq given "" then err invalid_params else found_or_not_found (first_value p r.stored))

  -- `FindByID`
  unfoldable pub find_by_id : ℕ → Result User
  find_by_id id = unless_failing r.failure (found_or_not_found (lookup id r.stored))

  -- `FindBySub`
  unfoldable pub find_by_sub : (String → List String) → String → Result User
  unfolding contain_auth auth_from
  find_by_sub split sub = find_one sub (λ (u : User). contain_auth (some u) (auth_from split sub))

  -- `FindByPasswordResetRequest`
  unfoldable pub find_by_password_reset_request : String → Result User
  find_by_password_reset_request token = find_one token (has_reset_token token)

  -- `FindByEmail`
  unfoldable pub find_by_email : String → Result User
  find_by_email email = find_one email (λ (u : User). str_eq u.email email)

  -- `FindByName`
  unfoldable pub find_by_name : String → Result User
  find_by_name name = find_one name (λ (u : User). str_eq u.name name)

  -- `FindByNameOrEmail`
  unfoldable pub find_by_name_or_email : String → Result User
  find_by_name_or_email given =
      find_one given (λ (u : User). str_eq u.email given || str_eq u.name given)

  -- `FindByNameOrAlias`
  unfoldable pub find_by_name_or_alias : String → Result (List User)
  find_by_name_or_alias given = unless_failing r.failure (
      if str_eq given ""
      then err invalid_params
      else some_or_not_found
          (all_values (λ k (u : User). str_eq u.name given || str_eq u.alias given) r.stored))

  -- `FindByAlias`
  unfoldable pub find_by_alias : String → Result User
  find_by_alias alias = find_one alias (λ (u : User). str_eq u.alias alias)

  -- `SearchByKeyword`
  unfoldable pub search_by_keyword : Texts → String → Result (List User)
  search_by_keyword t keyword = unless_failing r.failure (
      if ltb (t.byte_len keyword) 3
      then ok []
      else listed_or_not_found t (
          all_values
            (λ k (u : User).
              t.has_text (t.lower u.email) (t.trim (t.lower keyword))
              || t.has_text (t.lower u.name) (t.trim (t.lower keyword)))
            r.stored))

  -- `FindByVerification`
  unfoldable pub find_by_verification : String → Result User
  find_by_verification code = find_one code (has_code code)

  abbrev written : Dict User → Result (Unit {0}) × Users
  written d = elim r.failure [ some e ↦ (err e, r) | none ↦ (ok tt, record r { stored = d }) ]

  -- `FindBySubOrCreate`
  unfoldable pub find_by_sub_or_create :
      (String → List String) → User → String → Result User × Users
  find_by_sub_or_create split u sub = elim r.failure [
    | some e ↦ (err e, r)
    | none ↦
        elim (first_value (λ (v : User). contain_auth (some v) (auth_from split sub)) r.stored) [
          | none ↦ (ok u, record r { stored = insert u.id u r.stored })
          | some v ↦ (ok v, r)
        ]
  ]

  -- `Create`
  unfoldable pub create : User → Result (Unit {0}) × Users
  create u = elim r.failure [
    | some e ↦ (err e, r)
    | none ↦
        if has_key u.id r.stored
        then (err duplicated_user, r)
        else (ok tt, record r { stored = insert u.id u r.stored })
  ]

  -- `Save`
  unfoldable pub save : User → Result (Unit {0}) × Users
  save u = written (insert u.id u r.stored)

  -- `Remove`
  unfoldable pub remove : ℕ → Result (Unit {0}) × Users
  remove id = written (erase id r.stored)
