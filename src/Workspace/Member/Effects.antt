-- ===== src/Workspace/Member/Effects.antt =====
-- What the calls on the members change, and when they fail.
use reearth_accounts.Prelude.{
  ℕ, ◌+◌, String, ◌≡◌, true, false, not, ◌&&◌, ◌||◌, none, some, List, [], ◌∷◌, arith, ◌==◌,
  if◌then◌else◌, ok, inl, inr, Option-cases,
}
use reearth_accounts.Prelude.Dict.{
  Dict, lookup, has_key, insert, erase, lookup-insert, lookup-erase, length-insert,
}
use reearth_accounts.Prelude.Lists.{contains}
use reearth_accounts.Role.{RoleType, valid}
use reearth_accounts.Workspace.Member.{
  Member, Members, new_member, set_role, erase_all, some_missing, user, count, has_user,
  has_integration, user_role, role_or_empty, update_user_role, join, leave, delete_integrations,
}

erase-insert_absent {ℓ} :
    {V : Type ℓ} (k : ℕ) (v : V) (d : Dict V) → lookup k d ≡ none → erase k (insert k v d) ≡ d
erase-insert_absent k v [] h = ground arith
erase-insert_absent k v ((i, w) ∷ d) h = ground (arith, erase-insert_absent k v d)

-- If a user has joined, leaving at once brings back the members as they were.
pub leave-join :
    (m m' : Members) (u : ℕ) (host : String) (r : RoleType) (i : ℕ)
    → join m u host r i ≡ ok m'
    → leave m' u ≡ ok m
unfolding join leave
leave-join m m' u host r i h = ground (
  arith,
  erase-insert_absent u (new_member r i host) m.users,
  lookup-insert u u (new_member r i host) m.users,
)

-- If `Join` succeeds, the workspace is not personal and the user was no member; afterwards there is
-- one member more, the user has the given role (reader for the empty one), and every other user's
-- entry and the integrations are as before.
pub join_effect :
    (m m' : Members) (u : ℕ) (host : String) (r : RoleType) (i v : ℕ)
    → join m u host r i ≡ ok m'
    → (m.fixed ≡ false)
      × (has_user m u ≡ false)
      × (count m' ≡ count m + 1)
      × (user m' v ≡ (if u == v then some (new_member r i host) else user m v))
      × (m'.integrations ≡ m.integrations)
unfolding join
join_effect m m' u host r i v h = ground (
  arith,
  length-insert u (new_member r i host) m.users,
  lookup-insert u v (new_member r i host) m.users,
)

lookup-set_role_self :
    (k j : ℕ) (r : RoleType) (d : Dict Member)
    → role_or_empty (lookup j (set_role k r d))
      ≡ (if has_key k d && k == j then r else role_or_empty (lookup j d))
lookup-set_role_self k j r d = elim (Option-cases (lookup k d)) [
  | inl e ↦ rw (e, set_role)
  | inr (m, e) ↦ rw (e, set_role) (ground (arith, lookup-insert k j (record m { role = r }) d))
]

-- If `UpdateUserRole` succeeds, the workspace is not personal; if the role is valid, the user is a
-- member who now has it; every other user's role, and with a role that is not valid every role, is
-- as before.
pub update_user_role_effect :
    (m m' : Members) (u : ℕ) (r : RoleType) (v : ℕ)
    → update_user_role m u r ≡ ok m'
    → (m.fixed ≡ false)
      × ((has_user m u || not (valid r)) ≡ true)
      × (user_role m' v ≡ (if valid r && u == v then r else user_role m v))
unfolding update_user_role user_role
update_user_role_effect m m' u r v h = ground (arith, lookup-set_role_self u v r m.users)

pub has_key-erase_all {ℓ} :
    {V : Type ℓ} (ks : List ℕ) (j : ℕ) (d : Dict V)
    → has_key j (erase_all ks d) ≡ (has_key j d && not (contains j ks))
has_key-erase_all [] j d = ground arith
has_key-erase_all (k ∷ ks) j d =
    ground (arith, has_key-erase_all ks j (erase k d), lookup-erase k j d)

-- If `DeleteIntegrations` succeeds, each listed integration was there, and exactly the
-- integrations that are not listed are left; the users are as before.
pub delete_integrations_effect :
    (m m' : Members) (iids : List ℕ) (j : ℕ)
    → delete_integrations m iids ≡ ok m'
    → (has_integration m' j ≡ (has_integration m j && not (contains j iids)))
      × (some_missing iids m.integrations ≡ false)
      × (m'.users ≡ m.users)
unfolding delete_integrations
delete_integrations_effect m m' [] j h = cc
delete_integrations_effect m m' (i ∷ iids) j h =
    ground (arith, has_key-erase_all (i ∷ iids) j m.integrations)
