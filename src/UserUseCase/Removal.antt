-- ===== src/UserUseCase/Removal.antt =====
-- server/internal/usecase/interactor/user.go: what `DeleteMe` makes of the workspaces
use reearth_accounts.Prelude.{
  ℕ, ◌≡◌, refl, Bool, true, false, not, ◌&&◌, List, [], ◌∷◌, ok, arith, inl, inr, Bool-cases,
}
use reearth_accounts.Prelude.Dict.{HasDistinctKeys, erase, lookup-erase}
use reearth_accounts.Prelude.Lists.{select}
use reearth_accounts.Workspace.Entity.{Workspace, is_personal}
use reearth_accounts.Workspace.WorkspaceList.{ids}
use reearth_accounts.Workspace.Member.{Members, has_user, is_only_owner, leave}
use reearth_accounts.Workspace.Member.Owners.{HasOwner, leave-HasOwner}
use reearth_accounts.Interactor.Members.{with_members}
use reearth_accounts.UserUseCase.Leaving.{Parted, part}

abbrev pub AllOf : {A : Type 0} → (A → Type 0) → List A → Type 0
AllOf P [] = Unit
AllOf P (a ∷ l) = P a × AllOf P l

-- The user is out, and there is an owner.
abbrev pub IsLeft : ℕ → Workspace → Type 0
IsLeft u w = (has_user w.members u ≡ false) × HasOwner w.members

-- The members, which are a map, with the user and an owner
abbrev pub IsShared : ℕ → Workspace → Type 0
IsShared u w = HasDistinctKeys w.members.users × HasOwner w.members × (has_user w.members u ≡ true)

module _ (later : ℕ → ℕ → Bool) (u : ℕ) where
  -- Stays behind for the others
  abbrev pub stays : Workspace → Bool
  stays w = not (is_personal w) && not (is_only_owner later w.members u)

  -- What is right of the parts: the workspaces that stay, without the user and each with an owner, and
  -- the identifiers of the others.
  abbrev pub IsPartOf : List Workspace → Parted → Type 0
  IsPartOf ws p =
      AllOf (IsLeft u) p.updated
      × (ids p.updated ≡ ids (select stays ws))
      × (p.deleted ≡ ids (select (λ w. not (stays w)) ws))

  after_leaving :
      (w : Workspace)
      → IsShared u w
      → stays w ≡ true
      → (m : Members) × (leave w.members u ≡ ok m) × IsLeft u (with_members w m)
  unfolding leave
  after_leaving w (distinct, owned, member) h = (
    record w.members { users = erase u w.members.users },
    ground arith,
    (
      ground (arith, lookup-erase u u w.members.users),
      leave-HasOwner later w.members u distinct _ owned (ground arith) (ground arith),
    ),
  )

  -- For the workspaces of a user, each with an owner, the loop of `DeleteMe` ends without an error. It
  -- saves those that are not personal and have another owner, without the user and with an owner
  -- still, and it removes all the others.
  pub part_lem :
      (ws : List Workspace)
      → AllOf (IsShared u) ws
      → (p : Parted) × (part later u ws ≡ ok p) × IsPartOf ws p
  unfolding part
  part_lem [] h = (record { updated = []; deleted = [] }, refl, (tt, refl, refl))
  part_lem (w ∷ ws) (shared, rest) =
      let (p, e, parts) = part_lem ws rest in
      let (lefts, same, gone) = parts in
      elim (Bool-cases (stays w)) [
        | inl stay ↦
            let (m, e', is_left) = after_leaving w shared stay in
            (
              record p { updated = with_members w m ∷ p.updated },
              rw (stay, e, e') refl,
              ((is_left, lefts), rw (stay, same) refl, rw stay gone),
            )
        | inr go ↦ (
          record p { deleted = w.id ∷ p.deleted },
          rw (go, e) refl,
          (lefts, rw go same, rw (go, gone) refl),
        )
      ]
