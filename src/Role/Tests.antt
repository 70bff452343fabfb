-- ===== src/Role/Tests.antt =====
use reearth_accounts.Prelude.{◌≡◌, ◌&&◌, leb}
use reearth_accounts.Role.{maintainer, self, valid, includes}
use reearth_accounts.Role.Order.{rank, includes-eq-rank}

includes-eq-rank_example :
    includes maintainer self ≡ (valid maintainer && valid self && leb (rank maintainer) (rank self))
includes-eq-rank_example = includes-eq-rank maintainer self
