-- ===== src/UserUseCase/Query.antt =====
-- server/internal/usecase/interactor/user.go: `UserQuery`, over a list of repositories as far as they
-- are called, and `Simple` of server/pkg/user/simple.go. Reading leaves the store, which is left out.
use reearth_accounts.Prelude.{
  ℕ, String, Option, none, some, List, [], ◌∷◌, Result, ok, err, not_found, ◌>>=◌, if◌then◌else◌,
}
use reearth_accounts.User.Account.{User}
use reearth_accounts.Interactor.Guard.{is_not_found}

-- `Simple`
pub record Simple : Type 0 where
  pub id : ℕ
  pub name : String
  pub email : String
  pub host : String

-- `SimpleFrom`
abbrev pub simple_from : Option User → Option Simple
simple_from none = none
simple_from (some u) = some (record { id = u.id; name = u.name; email = u.email; host = u.host })

pub record Source : Type 0 where
  pub find_by_ids : List ℕ → Result (List (Option User))
  pub find_by_sub : String → Result User
  pub find_by_name_or_email : String → Result User
  pub search_by_keyword : String → Result (List User)
  pub find_by_alias : String → Result User
  pub find_by_name_or_alias : String → Result (List User)

-- The loop that the queries share: the first repository that does not answer with not found decides.
unfoldable pub first_answer : {A : Type 0} → (Source → Result A) → List Source → Result A
first_answer find [] = err not_found
first_answer find (r ∷ rs) =
    let rest = first_answer find rs in
    elim (find r) [ ok a ↦ ok a | err e ↦ if is_not_found e then rest else err e ]

-- `us[i] = uu` for each position of `u` that `us` has free. A list that is longer than `us` makes
-- the source panic; here the rest is left out.
abbrev pub fill : List (Option User) → List (Option User) → List (Option User)
fill [] found = []
fill (u ∷ us) [] = u ∷ us
fill (some u ∷ us) (v ∷ found) = some u ∷ fill us found
fill (none ∷ us) (v ∷ found) = v ∷ fill us found

-- The outer loop of `FetchByID`
abbrev pub fill_all : List ℕ → List Source → List (Option User) → Result (List (Option User))
fill_all ids [] us = ok us
fill_all ids (r ∷ rs) us = elim (r.find_by_ids ids) [
  | err e ↦ err e
  | ok found ↦ fill_all ids rs (fill us found)
]

abbrev pub nothing_for : List ℕ → List (Option User)
nothing_for [] = []
nothing_for (id ∷ ids) = none ∷ nothing_for ids

module _ (rs : List Source) where
  -- `FetchByID`
  unfoldable pub fetch_by_id : List ℕ → Result (List (Option User))
  fetch_by_id ids = fill_all ids rs (nothing_for ids)

  -- `FetchBySub`
  unfoldable pub fetch_by_sub : String → Result User
  fetch_by_sub sub = first_answer (λ r. r.find_by_sub sub) rs

  -- `FetchByNameOrEmail`
  unfoldable pub fetch_by_name_or_email : String → Result (Option Simple)
  fetch_by_name_or_email given =
      first_answer (λ r. r.find_by_name_or_email given >>= λ u. ok (simple_from (some u))) rs

  -- `SearchUser`
  unfoldable pub search_user : String → Result (List User)
  search_user keyword = first_answer (λ r. r.search_by_keyword keyword) rs

  -- `FetchByAlias`
  unfoldable pub fetch_by_alias : String → Result User
  fetch_by_alias alias = first_answer (λ r. r.find_by_alias alias) rs

  -- `FetchByNameOrAlias`
  unfoldable pub fetch_by_name_or_alias : String → Result (List User)
  fetch_by_name_or_alias given = first_answer (λ r. r.find_by_name_or_alias given) rs
