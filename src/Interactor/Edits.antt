-- ===== src/Interactor/Edits.antt =====
-- server/internal/usecase/interactor/workspace.go: who can update a workspace, and what `Update` makes
-- of it
use reearth_accounts.Prelude.{
  ℕ, String, ◌≡◌, ◌≢◌, refl, ◌∙◌, Bool, true, false, not, Option, none, some, str_eq, Result, ok,
  arith, eq_iff, ◌⊎◌, inl, inr, permission_denied, operation_denied, Bool-cases,
}
use reearth_accounts.Role.{owner}
use reearth_accounts.Workspace.Entity.{Workspace, Metadata, is_personal, set_metadata}
use reearth_accounts.Workspace.Member.{user_role}
use reearth_accounts.Workspace.Operator.{Operator}
use reearth_accounts.Action.Post.{
  Gives, Gives-pure, Gives-fail, Gives-any, Gives-lift, Gives-reads, Gives-bind, Gives-test,
  same_value,
}
use reearth_accounts.Interactor.Env.{Env, Cerbos}
use reearth_accounts.Interactor.Guard.{apply_default_policy}
use reearth_accounts.Interactor.Reading.{Reads}
use reearth_accounts.Interactor.Updating.{
  Texts, UpdateParam, check_role, answered, check_edit, with_name, with_alias, changing_alias,
  asked_alias, updating_workspace,
}

module _ {S : Type 0} (env : Env S) (r : Reads S) (t : Texts) (op : Operator) (now : ℕ) where
  -- The service allows the edit, or has no say and the user is an owner of the workspace.
  abbrev pub MayEdit : Option (Cerbos S) → S → ℕ → Workspace → Type 0
  MayEdit none s user w = user_role w.members user ≡ owner
  MayEdit (some cerbos) s user w =
      (cerbos user "edit" w.alias s ≡ ok (some true))
      ⊎ ((cerbos user "edit" w.alias s ≡ ok none) × (user_role w.members user ≡ owner))

  role_tested :
      (s : S) (user : ℕ) (w : Workspace)
      → Gives s (check_role env r t op now user w) (λ x. user_role w.members user ≡ owner)
  role_tested s user w = record {
    at = λ x s' e. ground (
      arith,
      eq_iff (user_role w.members user) owner,
      (Gives-test s (not (str_eq (user_role w.members user) owner)) operation_denied).at x s' e,
    );
  }

  said :
      (s : S) (user : ℕ) (w : Workspace) (answer : Result (Option Bool)) (says : Option Bool)
      → answer ≡ ok says
      → Gives s (answered env r t op now user w says) (λ x.
        (answer ≡ ok (some true)) ⊎ ((answer ≡ ok none) × (user_role w.members user ≡ owner)))
  said s user w answer none e = record { at = λ x s' q. inr (e, (role_tested s user w).at x s' q) }
  said s user w answer (some allowed) e = record {
    at = λ x s' q. inl (ground (arith, (Gives-test s (not allowed) permission_denied).at x s' q));
  }

  edit_checked :
      (c : Option (Cerbos S)) (s : S) (user : ℕ) (w : Workspace)
      → Gives s (check_edit env r t op now c user w) (λ x. MayEdit c s user w)
  edit_checked none s user w = role_tested s user w
  edit_checked (some cerbos) s user w =
      Gives-reads s (λ x. MayEdit (some cerbos) s user w) _ _
        (λ says e. said s user w (cerbos user "edit" w.alias s) says e)

  -- What a step leaves of a workspace
  abbrev pub IsKept : Workspace → Workspace → Type 0
  IsKept w v = (v.id ≡ w.id) × (v.members ≡ w.members) × (v.name ≡ w.name)

  -- The name is the trimmed one that is given, which is not empty, or as before.
  abbrev pub HasName : Option String → Workspace → Workspace → Type 0
  HasName none w v = v.name ≡ w.name
  HasName (some name) w v = (v.name ≡ t.trim name) × (t.trim name ≢ "")

  name_step :
      (name : Option String) (w v : Workspace)
      → with_name env r t op now name w ≡ ok v
      → HasName name w v × (v.id ≡ w.id) × (v.members ≡ w.members)
  name_step none w v e = ground arith
  name_step (some name) w v e = elim (Bool-cases (str_eq (t.trim name) "")) [
    | inl empty ↦ absurd (ground arith)
    | inr given ↦ ground (arith, eq_iff (t.trim name) "")
  ]

  alias_changed :
      (user : ℕ) (alias : String) (w : Workspace) (s : S)
      → Gives s (changing_alias env r t op now user alias w) (IsKept w)
  alias_changed user alias w s = Gives-any s (IsKept w) _ _ (λ x s1.
      Gives-reads s1 (IsKept w) _ _ (λ taken e.
        Gives-fail s1 (IsKept w) _ _ _ (λ free. Gives-pure s1 (IsKept w) _ (refl, refl, refl))))

  alias_step :
      (user id : ℕ) (alias : Option String) (w : Workspace) (s : S)
      → Gives s (with_alias env r t op now user id alias w) (IsKept w)
  alias_step user id none w s = record { at = λ v s' e. ground arith }
  alias_step user id (some alias) w s =
      elim (Bool-cases (str_eq (asked_alias env r t op now id alias) w.alias)) [
        | inl same ↦ record { at = λ v s' e. ground (arith, rw same at e) }
        | inr new ↦ record { at = λ v s' e. (alias_changed user _ w s).at v s' (rw new at e) }
      ]

  -- What a succeeding update makes of the workspace `w`
  abbrev pub IsEdited : S → ℕ → UpdateParam → Workspace → Workspace → Type 0
  IsEdited s user p w v =
      (v.id ≡ w.id)
      × (v.members ≡ w.members)
      × (is_personal w ≡ false)
      × HasName p.name w v
      × MayEdit env.cerbos s user w

  kept_name :
      (name : Option String) (w v u : Workspace)
      → HasName name w v
      → u.name ≡ v.name
      → HasName name w u
  kept_name none w v u h e = e ∙ h
  kept_name (some name) w v u (h, given) e = (e ∙ h, given)

  policy-IsKept : (w : Workspace) → IsKept w (apply_default_policy w op now)
  unfolding apply_default_policy
  policy-IsKept w = ground arith

  -- The workspace that `Update` gives back
  abbrev edited : Workspace → Metadata → Workspace
  edited w m = apply_default_policy (set_metadata w m now) op now

  ending :
      (s : S) (user : ℕ) (p : UpdateParam) (w w1 w2 v : Workspace)
      → is_personal w ≡ false
      → MayEdit env.cerbos s user w
      → HasName p.name w w1 × (w1.id ≡ w.id) × (w1.members ≡ w.members)
      → IsKept w1 w2
      → IsKept w2 v
      → IsEdited s user p w v
  ending s user p w w1 w2 v shared may (named, same_id, same_members) (id2, members2, name2)
        (id3, members3, name3) =
      (
        id3 ∙ id2 ∙ same_id,
        members3 ∙ members2 ∙ same_members,
        shared,
        kept_name p.name w w1 v named (name3 ∙ name2),
        may,
      )

  -- If `Update` succeeds, the workspace is not personal and keeps its identifier and its members; its
  -- name is the one that is given, trimmed and not empty, or as before; and the service allowed the
  -- edit, or had no say, or is not configured, and then the user is an owner of the workspace.
  pub updating_workspace_lem :
      (user : ℕ) (p : UpdateParam) (s s' : S) (w v : Workspace)
      → env.repos.find_workspace p.id s ≡ ok w
      → updating_workspace env r t op now user p s ≡ (ok v, s')
      → IsEdited s user p w v
  unfolding updating_workspace
  updating_workspace_lem user p s s' w v found e =
      (Gives-reads s (IsEdited s user p w) _ _ (λ w0 found0.
          Gives-fail s (IsEdited s user p w) _ _ _ (λ shared.
            Gives-bind s (IsEdited s user p w) _ _ (λ y s1 checked.
              Gives-lift s1 (IsEdited s user p w) _ _ (λ w1 named.
                Gives-bind s1 (IsEdited s user p w) _ _ (λ w2 s2 aliased.
                  Gives-lift s2 (IsEdited s user p w) _ _ (λ m detailed.
                    Gives-any s2 (IsEdited s user p w) _ _ (λ z s3.
                      Gives-pure s3 (IsEdited s user p w) (edited w2 m) (
                        same_value (λ a. IsEdited s user p a (edited w2 m)) found0 found
                          (ending s user p w0 w1 w2 (edited w2 m) shared
                            ((edit_checked env.cerbos s user w0).at y s1 checked)
                            (name_step p.name w0 w1 named)
                            ((alias_step user p.id p.alias w1 s1).at w2 s2 aliased)
                            (policy-IsKept (set_metadata w2 m now)))))))))))).at
        v s' e
