-- ===== src/AdminUser/UseCase/Guards.antt =====
-- With the repository in memory the use cases never lock the administrators out.
use reearth_accounts.Prelude.{
  ℕ, ◌+◌, ◌≤◌, String, ◌≡◌, refl, Bool, true, false, not, ◌&&◌, ◌||◌, some, List, [], ◌∷◌, arith,
  leb, str_eq, if◌then◌else◌, ok, err, Option-cases, inl, inr, cannot_modify_self, ap, ◌∙◌, ==_refl,
}
use reearth_accounts.Prelude.Dict.{lookup, insert}
use reearth_accounts.Prelude.Lists.{length}
use reearth_accounts.AdminUser.{AdminUser, approved, system_admin, is_approved, reject, set_role}
use reearth_accounts.AdminUser.Memory.{
  Data, IdOrder, matching, place, sort, list, find_by_id, save, is_approved_system_admin,
  exists_approved_system_admin_except, save_guarding_last_system_admin,
}
use reearth_accounts.AdminUser.Memory.Unique.{IsKeyed}
use reearth_accounts.AdminUser.UseCase.{
  approved_filter, memory_repo, reject_found, set_role_found, reject_admin, set_role_admin,
}

-- How many entries pass a test
abbrev count_where : (AdminUser → Bool) → Data → ℕ
count_where p [] = 0
count_where p ((k, v) ∷ d) = (if p v then 1 else 0) + count_where p d

abbrev pub count_approved : Data → ℕ
count_approved d = count_where is_approved d

abbrev pub count_system_admins : Data → ℕ
count_system_admins d = count_where is_approved_system_admin d

-- An entry that is overwritten counts as its new value.
count_where-insert :
    (p : AdminUser → Bool) (k : ℕ) (old new : AdminUser) (d : Data)
    → lookup k d ≡ some old
    → count_where p (insert k new d) + (if p old then 1 else 0)
      ≡ count_where p d + (if p new then 1 else 0)
count_where-insert p k old new [] e = cc
count_where-insert p k old new ((j, w) ∷ d) e = ground (arith, count_where-insert p k old new d)

module _ (o : IdOrder) where
  length-place : (u : AdminUser) (us : List AdminUser) → length (place o u us) ≡ length us + 1
  length-place u [] = omega arith
  length-place u (v ∷ vs) = ground (arith, length-place u vs)

  length-sort : (us : List AdminUser) → length (sort o us) ≡ length us
  length-sort [] = refl
  length-sort (u ∷ us) = omega (arith, length-place u (sort o us), length-sort us)

  length-matching : (d : Data) → length (matching approved_filter d) ≡ count_approved d
  length-matching [] = refl
  length-matching ((k, v) ∷ d) = ground (arith, length-matching d)

  -- The count of the interface is the number of approved entries.
  count_lem : (d : Data) → (memory_repo o).count_with_status d approved ≡ ok (count_approved d)
  unfolding list
  count_lem d = ap ok (length-sort (matching approved_filter d) ∙ length-matching d)

  reject_found-count :
      (d : Data) (u : AdminUser) (now : ℕ)
      → lookup u.id d ≡ some u
      → 1 ≤ count_approved d
      → (is_approved u && leb (count_approved d) 1) ≡ false
      → 1 ≤ count_approved (reject_found (memory_repo o) d u now).1
  unfolding save reject
  reject_found-count d u now e h g =
      ground (arith, count_where-insert is_approved u.id u (reject u now) d)

  -- If some admin user is approved, then some admin user is approved after an attempt to reject
  -- one, whether it succeeds or not; nobody rejects themselves.
  pub reject_admin_keeps_approved :
      (d : Data) (operator target now : ℕ)
      → IsKeyed d
      → 1 ≤ count_approved d
      → (1 ≤ count_approved (reject_admin (memory_repo o) d operator target now).1)
        × (reject_admin (memory_repo o) d operator operator now ≡ (err cannot_modify_self, d))
  unfolding reject_admin find_by_id
  reject_admin_keeps_approved d operator target now k h = (
    elim (Option-cases (lookup target d)) [
      | inl e ↦ ground arith
      | inr (u, e) ↦ ground (arith, k target u, count_lem d, reject_found-count d u now)
    ],
    rw (==_refl operator),
  )

  -- Some entry other than `k` is an approved system admin, so overwriting `k` leaves one.
  exists-count :
      (k : ℕ) (d : Data)
      → exists_approved_system_admin_except d k ≡ true
      → 1 ≤ count_system_admins d
  unfolding exists_approved_system_admin_except
  exists-count k [] e = cc
  exists-count k ((j, w) ∷ d) e = ground (arith, exists-count k d)

  exists-insert :
      (k : ℕ) (v : AdminUser) (d : Data)
      → exists_approved_system_admin_except d k ≡ true
      → 1 ≤ count_system_admins (insert k v d)
  unfolding exists_approved_system_admin_except
  exists-insert k v [] e = cc
  exists-insert k v ((j, w) ∷ d) e = ground (arith, exists-insert k v d, exists-count k d)

  -- What the save that guards the last system admin leaves, if the flag says enough.
  save_guarding-count :
      (d : Data) (u new : AdminUser) (flag : Bool)
      → new.id ≡ u.id
      → lookup u.id d ≡ some u
      → 1 ≤ count_system_admins d
      → (flag || not (is_approved_system_admin u) || is_approved_system_admin new) ≡ true
      → 1 ≤ count_system_admins (save_guarding_last_system_admin d new flag).1
  unfolding save_guarding_last_system_admin
  save_guarding-count d u new true same e h g = ground (arith, exists-insert new.id new d)
  save_guarding-count d u new false same e h g =
      ground (arith, count_where-insert is_approved_system_admin u.id u new d)

  set_role_found-count :
      (d : Data) (u : AdminUser) (role : String) (now : ℕ)
      → lookup u.id d ≡ some u
      → 1 ≤ count_system_admins d
      → 1 ≤ count_system_admins (set_role_found (memory_repo o) d u role now).1
  unfolding set_role
  set_role_found-count d u role now e h =
      let new : AdminUser = record u { role = role; updated_at = now } in
      let demoting =
        is_approved u && str_eq u.role system_admin && not (str_eq role system_admin) in
      ground (arith, save_guarding-count d u new demoting)

  -- If some approved admin user has the role of system admin, then some approved one has it after
  -- an attempt to give a role, whether it succeeds or not.
  pub set_role_admin_keeps_system_admin :
      (d : Data) (target : ℕ) (role : String) (now : ℕ)
      → IsKeyed d
      → 1 ≤ count_system_admins d
      → 1 ≤ count_system_admins (set_role_admin (memory_repo o) d target role now).1
  unfolding set_role_admin find_by_id
  set_role_admin_keeps_system_admin d target role now k h = elim (Option-cases (lookup target d)) [
    | inl e ↦ ground arith
    | inr (u, e) ↦ ground (arith, k target u, set_role_found-count d u role now)
  ]
