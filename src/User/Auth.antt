-- ===== src/User/Auth.antt =====
-- server/pkg/user/auth.go: the identities under which a user may sign in.
use reearth_accounts.Prelude.{
  ℕ, zero, suc, String, ◌≡◌, refl, Bool, true, false, ◌&&◌, Option, none, some, List, [], ◌∷◌, ◌++◌,
  leb, str_eq, if◌then◌else◌, arith, eq_iff, eq_refl, ◌⊎◌, ◌≤◌, ◌<◌, ap,
}
use reearth_accounts.Prelude.Lists.{take, drop, length, some_where, some_where-append}

pub record Auth : Type 0 where
  pub provider : String
  pub sub : String

abbrev pub provider_reearth : String
provider_reearth = "reearth"

abbrev pub provider_auth0 : String
provider_auth0 = "auth0"

-- `AuthFrom`, by what `strings.SplitN(sub, "|", 2)` gives
unfoldable pub auth_from : (String → List String) → String → Auth
auth_from split sub = elim (split sub) [
  | p ∷ q ∷ [] ↦ record { provider = p; sub = sub }
  | _ ↦ record { provider = ""; sub = sub }
]

-- `a == b`
abbrev pub auth_eq : Auth → Auth → Bool
auth_eq a b = str_eq a.provider b.provider && str_eq a.sub b.sub

-- `IsReearth`
abbrev pub is_reearth : Auth → Bool
is_reearth a = str_eq a.provider provider_reearth

-- `IsAuth0`
abbrev pub is_auth0 : Auth → Bool
is_auth0 a = str_eq a.provider provider_auth0

abbrev pub has_sub : String → Auth → Bool
has_sub sub a = str_eq a.sub sub

abbrev pub has_provider_name : String → Auth → Bool
has_provider_name p a = str_eq a.provider p

-- `Auths.Has`, `Auths.HasProvider`
abbrev pub has : List Auth → String → Bool
has l sub = some_where (has_sub sub) l

abbrev pub has_provider : List Auth → String → Bool
has_provider l p = some_where (has_provider_name p) l

-- `lo.FindIndexOf`
abbrev pub find_index : (Auth → Bool) → List Auth → Option ℕ
find_index p [] = none
find_index p (a ∷ l) =
    let rest = find_index p l in
    if p a then some 0 else elim rest [ none ↦ none | some i ↦ some (suc i) ]

abbrev pub get_elem? : List Auth → ℕ → Option Auth
get_elem? [] i = none
get_elem? (a ∷ l) zero = some a
get_elem? (a ∷ l) (suc i) = get_elem? l i

-- `Auths.GetByProvider`
unfoldable pub get_by_provider : List Auth → String → Option Auth
get_by_provider l p = elim (find_index (has_provider_name p) l) [
  | none ↦ none
  | some i ↦ get_elem? l i
]

-- `Auths.Get`
unfoldable pub get : List Auth → String → Option Auth
get l sub = elim (find_index (has_sub sub) l) [ none ↦ none | some i ↦ get_elem? l i ]

-- `Auths.Add`
unfoldable pub add : List Auth → Auth → List Auth
add l u = if has l u.sub then l else l ++ u ∷ []

-- `slices.Delete(s, i, j)` takes out `s[i:j]`, and panics (here `none`) unless i ≤ j ≤ len(s).
abbrev pub slices_delete : List Auth → ℕ → ℕ → Option (List Auth)
slices_delete s i j = if leb i j && leb j (length s) then some (take i s ++ drop j s) else none

-- `Auths.Remove`: the arguments of `slices.Delete` are the index and 1.
unfoldable pub remove : List Auth → String → Option (List Auth)
remove l sub = elim (find_index (has_sub sub) l) [ none ↦ some l | some i ↦ slices_delete l i 1 ]

-- `Auths.RemoveByProvider`
unfoldable pub remove_by_provider : List Auth → String → Option (List Auth)
remove_by_provider l p = elim (find_index (has_provider_name p) l) [
  | none ↦ some l
  | some i ↦ slices_delete l i 1
]

find_index-lt-length :
    (p : Auth → Bool) (l : List Auth) (i : ℕ) → find_index p l ≡ some i → i < length l
find_index-lt-length p [] i h = cc
find_index-lt-length p (a ∷ l) zero h = omega arith
find_index-lt-length p (a ∷ l) (suc i) h = ground (arith, find_index-lt-length p l i)

take-append-drop : (i : ℕ) (l : List Auth) → take i l ++ drop i l ≡ l
take-append-drop zero l = refl
take-append-drop (suc i) [] = refl
take-append-drop (suc i) (a ∷ l) = ap (λ r. a ∷ r) (take-append-drop i l)

-- `Remove` of a sub works when its identity is the first; when it is the second, the list stays as
-- it was; when it is any later one, the call panics.
pub remove_by_position :
    (l : List Auth) (sub : String) (i : ℕ)
    → find_index (has_sub sub) l ≡ some i
    → ((i ≡ 0) × (remove l sub ≡ some (drop 1 l)))
      ⊎ ((i ≡ 1) × (remove l sub ≡ some l))
      ⊎ ((2 ≤ i) × (remove l sub ≡ none))
unfolding remove
remove_by_position l sub zero h = ground (arith, find_index-lt-length (has_sub sub) l 0)
remove_by_position l sub (suc zero) h =
    ground (arith, find_index-lt-length (has_sub sub) l 1, take-append-drop 1 l)
remove_by_position l sub (suc (suc i)) h = ground arith

-- No sub stands twice.
abbrev pub HasDistinctSubs : List Auth → Type 0
HasDistinctSubs [] = Unit
HasDistinctSubs (a ∷ l) = (has l a.sub ≡ false) × HasDistinctSubs l

add_end :
    (a : Auth) (l : List Auth)
    → has l a.sub ≡ false
    → HasDistinctSubs l
    → HasDistinctSubs (l ++ a ∷ [])
add_end a [] h d = (refl, tt)
add_end a (b ∷ l) h d = ground (
  arith,
  add_end a l,
  some_where-append (has_sub b.sub) l (a ∷ []),
  eq_iff a.sub b.sub,
  eq_iff b.sub a.sub,
)

-- `Auths.Add` keeps a list free of double subs, and afterwards the sub that it was given is there.
pub add-HasDistinctSubs :
    (l : List Auth) (a : Auth)
    → HasDistinctSubs l
    → HasDistinctSubs (add l a) × (has (add l a) a.sub ≡ true)
unfolding add
add-HasDistinctSubs l a d =
    ground (arith, add_end a l, some_where-append (has_sub a.sub) l (a ∷ []), eq_refl a.sub)
