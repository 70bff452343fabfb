-- ===== src/Memory/Refines.antt =====
-- server/internal/infrastructure/memory/user.go: the repository of users implements a map from
-- identifiers to users. The specification is a function; the state of the code is a list.
use reearth_accounts.Prelude.{
  ℕ, ◌≡◌, refl, Option, none, some, List, [], ◌∷◌, ◌==◌, Result, ok, err, Option-cases, inl, inr,
  duplicated_user, arith, if◌then◌else◌,
}
use reearth_accounts.Prelude.Dict.{lookup, lookup-insert, lookup-erase}
use reearth_accounts.User.Account.{User}
use reearth_accounts.Memory.Texts.{found_or_not_found}
use reearth_accounts.Memory.Users.{Users, find_by_id, create, save, remove}

-- A call that changes the repository
pub data Call : Type 0 where
  creating saving : User → Call
  removing : ℕ → Call

-- What the code does: the answer and the repository
abbrev pub step : Users → Call → Result (Unit {0}) × Users
step r (creating u) = create r u
step r (saving u) = save r u
step r (removing id) = remove r id

abbrev pub View : Type 0
View = ℕ → Option User

abbrev pub put : ℕ → Option User → View → View
put k v f = λ j. if k == j then v else f j

abbrev create_spec : User → View → Option User → Result (Unit {0}) × View
create_spec u f (some v) = (err duplicated_user, f)
create_spec u f none = (ok tt, put u.id (some u) f)

-- What the map does
abbrev pub step_spec : View → Call → Result (Unit {0}) × View
step_spec f (creating u) = create_spec u f (f u.id)
step_spec f (saving u) = (ok tt, put u.id (some u) f)
step_spec f (removing id) = (ok tt, put id none f)

-- The answers to a list of calls, and the state that they leave
abbrev pub run : List Call → Users → List (Result (Unit {0})) × Users
run [] r = ([], r)
run (c ∷ cs) r = let s = step r c in let rest = run cs s.1 in (s.0 ∷ rest.0, rest.1)

abbrev pub run_spec : List Call → View → List (Result (Unit {0})) × View
run_spec [] f = ([], f)
run_spec (c ∷ cs) f = let s = step_spec f c in let rest = run_spec cs s.1 in (s.0 ∷ rest.0, rest.1)

-- The repository shows the map, and no failure is set.
abbrev pub Shows : Users → View → Type 0
Shows r f = (r.failure ≡ none) × ((id : ℕ) → lookup id r.stored ≡ f id)

Shows-step :
    (r : Users) (f : View) (c : Call)
    → Shows r f
    → ((step r c).0 ≡ (step_spec f c).0) × Shows (step r c).1 (step_spec f c).1
unfolding create save remove
Shows-step r f (creating u) (works, same) = elim (Option-cases (f u.id)) [
  | inl free ↦
      rw (works, same u.id, free)
        (refl, (refl, λ id. ground (arith, lookup-insert u.id id u r.stored, same id)))
  | inr (v, taken) ↦ rw (works, same u.id, taken) (refl, (refl, same))
]
Shows-step r f (saving u) (works, same) =
    rw works (refl, (refl, λ id. ground (arith, lookup-insert u.id id u r.stored, same id)))
Shows-step r f (removing k) (works, same) =
    rw works (refl, (refl, λ id. ground (arith, lookup-erase k id r.stored, same id)))

-- While no failure is set, the repository answers each call of a run as the map does, and what
-- `FindByID` finds behind the run is what the map then has.
pub run_refines :
    (cs : List Call) (r : Users) (f : View)
    → Shows r f
    → ((run cs r).0 ≡ (run_spec cs f).0)
      × ((id : ℕ) → find_by_id (run cs r).1 id ≡ found_or_not_found ((run_spec cs f).1 id))
unfolding find_by_id
run_refines [] r f (works, same) = (refl, λ id. rw (works, same id) refl)
run_refines (c ∷ cs) r f h =
    let (answer, shown) = Shows-step r f c h in
    let (answers, finds) = run_refines cs (step r c).1 (step_spec f c).1 shown in
    (rw (answer, answers) refl, finds)
