-- ===== src/Workspace/Filter.antt =====
-- server/pkg/workspace/filter.go: which workspaces a repository may show and write.
use reearth_accounts.Prelude.{
  ℕ, ◌≡◌, Bool, true, false, ◌||◌, none, some, [], ◌∷◌, ◌++◌, ◌==◌, arith,
}
use reearth_accounts.Prelude.Idx.{Idx, IsIdx}
use reearth_accounts.Prelude.Lists.{length, contains, contains-append}
use reearth_accounts.Prelude.Slices.{Slice, items, append}
use reearth_accounts.Workspace.Operator.{Operator, all_readable, all_writable}

pub record WorkspaceFilter : Type 0 where
  pub readable : Slice ℕ
  pub writable : Slice ℕ

-- The filter of a repository that is not filtered
abbrev pub no_filter : WorkspaceFilter
no_filter = record { readable = none; writable = none }

-- `WorkspaceFilterFromOperator`
abbrev pub filter_from_operator : Operator → WorkspaceFilter
filter_from_operator o = record { readable = all_readable o; writable = all_writable o }

-- One half of `Merge`; `Clone` copies a slice.
abbrev merge_slice : Slice ℕ → Slice ℕ → Slice ℕ
merge_slice none none = none
merge_slice none (some g) = some g
merge_slice (some f) g = append (some f) g

-- `Merge`
unfoldable pub merge : WorkspaceFilter → WorkspaceFilter → WorkspaceFilter
merge f g = record {
  readable = merge_slice f.readable g.readable;
  writable = merge_slice f.writable g.writable;
}

abbrev is_nil : Slice ℕ → Bool
is_nil none = true
is_nil (some _) = false

module _ (x : Idx) where
  -- `CanWrite`
  unfoldable pub can_write : WorkspaceFilter → ℕ → Bool
  can_write f id = length (items f.writable) == 0 || x.has (items f.writable) id

  -- `CanRead`
  unfoldable pub can_read : WorkspaceFilter → ℕ → Bool
  unfolding can_write
  can_read f id = is_nil f.readable || x.has (items f.readable) id || can_write f id

-- The filter with what may be written, and with what may be read beyond that.
abbrev filter_of : Slice ℕ → Slice ℕ → WorkspaceFilter
filter_of r s = record { readable = append r s; writable = s }

unlimited :
    (x : Idx) (r s : Slice ℕ) (w : ℕ)
    → items s ≡ []
    → (can_write x (filter_of r s) w ≡ true) × (can_read x (filter_of r s) w ≡ true)
unfolding can_read
unlimited x r none w h = ground arith
unlimited x r (some []) w h = ground arith
unlimited x r (some (y ∷ ys)) w h = cc

limited :
    (x : Idx) (laws : IsIdx x) (r s : Slice ℕ) (w v : ℕ)
    → contains v (items s) ≡ true
    → (can_write x (filter_of r s) w ≡ contains w (items s))
      × (can_read x (filter_of r s) w ≡ contains w (items (append r s)))
unfolding can_read
limited x laws r none w v h = cc
limited x laws r (some []) w v h = cc
limited x laws none (some (y ∷ ys)) w v h = ground (arith, laws.has_lem (y ∷ ys) w)
limited x laws (some zs) (some (y ∷ ys)) w v h =
    ground
      (arith, laws.has_lem (y ∷ ys) w, laws.has_lem (zs ++ y ∷ ys) w, contains-append w zs (y ∷ ys))

-- The filter of an operator who may write to no workspace lets every workspace be written, and so
-- be read.
pub filter_without_writable :
    (x : Idx) (o : Operator) (w : ℕ)
    → items (all_writable o) ≡ []
    → (can_write x (filter_from_operator o) w ≡ true)
      × (can_read x (filter_from_operator o) w ≡ true)
filter_without_writable x o w h = unlimited x o.readable_workspaces (all_writable o) w h

-- The filter of an operator who may write to some workspace allows the writes to the workspaces
-- that the operator may write to, and the reads of those that the operator may read.
pub filter_with_writable :
    (x : Idx) (laws : IsIdx x) (o : Operator) (w v : ℕ)
    → contains v (items (all_writable o)) ≡ true
    → (can_write x (filter_from_operator o) w ≡ contains w (items (all_writable o)))
      × (can_read x (filter_from_operator o) w ≡ contains w (items (all_readable o)))
filter_with_writable x laws o w v h = limited x laws o.readable_workspaces (all_writable o) w v h
