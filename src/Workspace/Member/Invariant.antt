-- ===== src/Workspace/Member/Invariant.antt =====
-- What every sequence of calls on the members keeps: distinct keys, and of a personal workspace
-- the users.
use reearth_accounts.Prelude.{
  ℕ, String, ◌≡◌, refl, ◌∙◌, true, List, [], ◌∷◌, arith, Result, ok, err, Option-cases, inl, inr,
}
use reearth_accounts.Prelude.Dict.{
  Dict, lookup, erase, HasDistinctKeys, HasDistinctKeys-insert, HasDistinctKeys-erase,
}
use reearth_accounts.Role.{RoleType}
use reearth_accounts.Workspace.Member.{
  Member, Members, new_member, set_role, erase_all, update_user_role, update_integration_role, join,
  add_integration, leave, delete_integration, delete_integrations,
}

pub record IsValid (m : Members) : Type 0 where
  pub users : HasDistinctKeys m.users
  pub integrations : HasDistinctKeys m.integrations

-- The calls that change members, with their arguments.
pub data Call : Type 0 where
  update_user_role_of : ℕ → RoleType → Call
  update_integration_role_of : ℕ → RoleType → Call
  join_as : ℕ → String → RoleType → ℕ → Call
  add_integration_as : ℕ → RoleType → ℕ → Call
  leave_of : ℕ → Call
  delete_integration_of : ℕ → Call
  delete_integrations_of : List ℕ → Call

unfoldable pub perform : Members → Call → Result Members
unfolding update_user_role update_integration_role join add_integration leave delete_integration
    delete_integrations
perform m (update_user_role_of u r) = update_user_role m u r
perform m (update_integration_role_of i r) = update_integration_role m i r
perform m (join_as u host r i) = join m u host r i
perform m (add_integration_as i r by) = add_integration m i r by
perform m (leave_of u) = leave m u
perform m (delete_integration_of i) = delete_integration m i
perform m (delete_integrations_of is) = delete_integrations m is

-- A failed call leaves the members as they were.
abbrev pub after : Members → Result Members → Members
after m (ok m') = m'
after m (err e) = m

unfoldable pub run : Members → List Call → Members
unfolding perform
run m [] = m
run m (c ∷ cs) = run (after m (perform m c)) cs

set_role-HasDistinctKeys :
    (k : ℕ) (r : RoleType) (d : Dict Member) → HasDistinctKeys d → HasDistinctKeys (set_role k r d)
set_role-HasDistinctKeys k r d h = elim (Option-cases (lookup k d)) [
  | inl e ↦ rw (e, set_role) h
  | inr (m, e) ↦ rw (e, set_role) (HasDistinctKeys-insert k (record m { role = r }) d h)
]

erase_all-HasDistinctKeys :
    (ks : List ℕ) (d : Dict Member) → HasDistinctKeys d → HasDistinctKeys (erase_all ks d)
erase_all-HasDistinctKeys [] d h = h
erase_all-HasDistinctKeys (k ∷ ks) d h =
    erase_all-HasDistinctKeys ks (erase k d) (HasDistinctKeys-erase k d h)

perform-IsValid : (m : Members) (c : Call) → IsValid m → IsValid (after m (perform m c))
unfolding perform
perform-IsValid m (update_user_role_of u r) v =
    ground (arith, set_role-HasDistinctKeys u r m.users v.users)
perform-IsValid m (update_integration_role_of i r) v =
    ground (arith, set_role-HasDistinctKeys i r m.integrations v.integrations)
perform-IsValid m (join_as u host r i) v =
    ground (arith, HasDistinctKeys-insert u (new_member r i host) m.users v.users)
perform-IsValid m (add_integration_as i r by) v =
    ground (arith, HasDistinctKeys-insert i (new_member r by "") m.integrations v.integrations)
perform-IsValid m (leave_of u) v = ground (arith, HasDistinctKeys-erase u m.users v.users)
perform-IsValid m (delete_integration_of i) v =
    ground (arith, HasDistinctKeys-erase i m.integrations v.integrations)
perform-IsValid m (delete_integrations_of []) v = v
perform-IsValid m (delete_integrations_of (i ∷ is)) v =
    ground (arith, erase_all-HasDistinctKeys (i ∷ is) m.integrations v.integrations)

-- Whatever methods are called, in whatever order and with whatever outcome, no identifier is
-- listed twice among the users or among the integrations.
pub run-IsValid : (m : Members) (cs : List Call) → IsValid m → IsValid (run m cs)
unfolding run
run-IsValid m [] v = v
run-IsValid m (c ∷ cs) v = run-IsValid (after m (perform m c)) cs (perform-IsValid m c v)

perform-fixed :
    (m : Members) (c : Call)
    → m.fixed ≡ true
    → ((after m (perform m c)).fixed ≡ true) × ((after m (perform m c)).users ≡ m.users)
unfolding perform
perform-fixed m (delete_integrations_of []) h = (h, refl)
perform-fixed m _ h = ground arith

-- Of a personal workspace no method changes the users, and it stays personal; integrations may
-- come and go.
pub run_personal :
    (m : Members) (cs : List Call)
    → m.fixed ≡ true
    → ((run m cs).fixed ≡ true) × ((run m cs).users ≡ m.users)
unfolding run
run_personal m [] h = (h, refl)
run_personal m (c ∷ cs) h =
    let (fixed, same) = perform-fixed m c h in
    let (fixed', same') = run_personal (after m (perform m c)) cs fixed in (fixed', same' ∙ same)
