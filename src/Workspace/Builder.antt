-- ===== src/Workspace/Builder.antt =====
-- server/pkg/workspace/workspace_builder.go. A chain of builder calls is a chain of functions on
-- the builder; `Build` overwrites the members of `w`, which nothing reads before.
use reearth_accounts.Prelude.{
  ℕ, String, ◌≡◌, Bool, false, Option, none, some, [], Error, Result, ok, err, ◌==◌, if◌then◌else◌,
  arith, invalid_id,
}
use reearth_accounts.Prelude.Dict.{Dict}
use reearth_accounts.Workspace.Member.{Member, Members, new_members, new_members_with}
use reearth_accounts.Workspace.Entity.{Metadata, new_metadata, Workspace, set_metadata}

pub record Builder : Type 0 where
  pub w : Workspace
  pub members : Option (Dict Member)
  pub integrations : Option (Dict Member)
  pub personal : Bool
  pub error : Option Error

-- `New`
abbrev pub new : Builder
new = record {
  w = record {
    id = 0;
    name = "";
    alias = "";
    email = "";
    metadata = new_metadata;
    members = new_members;
    policy = none;
    created_at = none;
    created_by = none;
    updated_at = 0;
    deleted_at = none;
  };
  members = none;
  integrations = none;
  personal = false;
  error = none;
}

abbrev or_nil : Option (Dict Member) → Dict Member
or_nil none = []
or_nil (some d) = d

-- The members that `Build` makes before it sets `fixed`.
abbrev members_of : Option (Dict Member) → Option (Dict Member) → Members
members_of none none = new_members
members_of us is = new_members_with (or_nil us) (or_nil is) false

-- The part of `Build` behind its checks.
abbrev assemble : Builder → ℕ → ℕ → Workspace
assemble b now now' =
    let preserved = b.w.updated_at in
    let ms = members_of b.members b.integrations in
    let w = set_metadata (record b.w { members = ms }) b.w.metadata now in
    let w' : Workspace = record w { members = record ms { fixed = b.personal } } in
    if preserved == 0 then record w' { updated_at = now' } else record w' { updated_at = preserved }

-- `Build`
unfoldable pub build : (ℕ → Bool) → Builder → ℕ → ℕ → Result Workspace
build is_empty b now now' = elim b.error [
  | some e ↦ err e
  | none ↦ if is_empty b.w.id then err invalid_id else ok (assemble b now now')
]

module _ (b : Builder) where
  -- `ID`
  abbrev pub with_id : ℕ → Builder
  with_id id = record b { w = record b.w { id = id } }

  -- `ParseID`, by what `IDFrom` gives for the text
  abbrev pub parse_id : (String → ℕ × Option Error) → String → Builder
  parse_id id_from id = let (i, e) = id_from id in record b { w = record b.w { id = i }; error = e }

  -- `Name`
  abbrev pub with_name : String → Builder
  with_name name = record b { w = record b.w { name = name } }

  -- `Alias`
  abbrev pub with_alias : String → Builder
  with_alias alias = record b { w = record b.w { alias = alias } }

  -- `Email`
  abbrev pub with_email : String → Builder
  with_email email = record b { w = record b.w { email = email } }

  -- `Metadata`
  abbrev pub with_metadata : Metadata → Builder
  with_metadata metadata = record b { w = record b.w { metadata = metadata } }

  -- `Members`
  abbrev pub with_members : Dict Member → Builder
  with_members members = record b { members = some members }

  -- `Integrations`
  abbrev pub with_integrations : Dict Member → Builder
  with_integrations integrations = record b { integrations = some integrations }

  -- `Personal`
  abbrev pub with_personal : Bool → Builder
  with_personal p = record b { personal = p }

  -- `Policy`
  abbrev pub with_policy : Option String → Builder
  with_policy p = record b { w = record b.w { policy = p } }

  -- `CreatedAt`
  abbrev pub with_created_at : Option ℕ → Builder
  with_created_at t = record b { w = record b.w { created_at = t } }

  -- `CreatedBy`
  abbrev pub with_created_by : Option ℕ → Builder
  with_created_by uid = record b { w = record b.w { created_by = uid } }

  -- `DeletedAt`
  abbrev pub with_deleted_at : Option ℕ → Builder
  with_deleted_at t = record b { w = record b.w { deleted_at = t } }

  -- `UpdatedAt`
  abbrev pub with_updated_at : ℕ → Builder
  with_updated_at t = record b { w = record b.w { updated_at = t } }

-- If `Build` succeeds, no error was pending and the identifier is not empty; the workspace is
-- personal exactly when the builder says so, has the time of creation that was set, never the
-- current one, and the time of update that was set, or the current one if none was.
pub build_lem :
    (is_empty : ℕ → Bool) (b : Builder) (now now' : ℕ) (w : Workspace)
    → build is_empty b now now' ≡ ok w
    → (b.error ≡ none)
      × (is_empty w.id ≡ false)
      × (w.id ≡ b.w.id)
      × (w.members.fixed ≡ b.personal)
      × (w.created_at ≡ b.w.created_at)
      × (w.updated_at ≡ (if b.w.updated_at == 0 then now' else b.w.updated_at))
unfolding build
build_lem is_empty b now now' w h = ground arith
