-- ===== src/Pagination/Tests.antt =====
-- The theorems on pages at concrete ones
use Prim.Native.Nat.{◌^◌}
use reearth_accounts.Prelude.{◌-◌, ◌≤◌}
use reearth_accounts.Pagination.{to_pagination}
use reearth_accounts.Pagination.Bounds.{IsLimit, IsOffset, to_pagination_lem}

-- The last page that an int64 can ask for, with 64 rows
to_pagination_lem_example :
    (1 ≤ (to_pagination (2 ^ 63 - 1) 64).limit)
    × ((to_pagination (2 ^ 63 - 1) 64).limit ≤ 100)
    × IsLimit 64 (to_pagination (2 ^ 63 - 1) 64).limit
    × IsOffset
        (2 ^ 63 - 1)
        (to_pagination (2 ^ 63 - 1) 64).limit
        (to_pagination (2 ^ 63 - 1) 64).offset
to_pagination_lem_example = to_pagination_lem (2 ^ 63 - 1) 64
