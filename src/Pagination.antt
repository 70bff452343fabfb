-- ===== src/Pagination.antt =====
-- server/pkg/pagination/pagination.go: which rows a page asks for. An int64 is its bit pattern, a
-- number below 2 ^ 64, which stands for a positive number when it is not 0 and below 2 ^ 63.
pub mod Bounds
mod Tests
use reearth_accounts.Prelude.{ℕ, ◌-◌, ◌+◌, ◌*◌, ◌%◌, Bool, ◌&&◌, ltb, if◌then◌else◌}
use Prim.Native.Nat.{◌^◌}

abbrev pub is_positive : ℕ → Bool
is_positive w = ltb 0 w && ltb w (2 ^ 63)

-- `maxPerPage` and `defaultPerPage`
abbrev pub max_per_page : ℕ
max_per_page = 100

abbrev pub default_per_page : ℕ
default_per_page = 50

-- `p` of `ToPagination`
abbrev pub page_number : ℕ → ℕ
page_number page = if is_positive page then page else 1

-- `pp` of `ToPagination`
abbrev pub page_size : ℕ → ℕ
page_size per_page =
    if is_positive per_page
    then (if ltb max_per_page per_page then max_per_page else per_page)
    else default_per_page

pub record Offset : Type 0 where
  pub offset : ℕ
  pub limit : ℕ

-- `ToPagination`: the product wraps around.
unfoldable pub to_pagination : ℕ → ℕ → Offset
to_pagination page per_page = record {
  offset = ((page_number page - 1) * page_size per_page) % 2 ^ 64;
  limit = page_size per_page;
}
