-- ===== src/Reconciliation/Compaction/Bounds.antt =====
-- engine.go: `compact` as a whole, and the limits of the configuration.
use bering.Prelude.{◌≤◌, ◌≡◌, false}
use bering.Go.Int
use bering.Go.Int.{pos, pos_part}
use bering.Go.Map.{Map}
use bering.Go.Time.{Time, Rfc3339}
use bering.Reconciliation.Types.{PersistedState}
use bering.Reconciliation.Config.{Config}
use bering.Reconciliation.Compaction.{retired_count, total_retired}

-- The limits of a configuration are positive, as its validation demands.
pub record HasLimits (cfg : Config) : Type 0 where
  pub per_kind : Int.le cfg.max_retired_per_kind (pos 0) ≡ false
  pub overall : Int.le cfg.max_retired_overall (pos 0) ≡ false

-- What a compaction promises of the retired entities that are left.
pub record WithinLimits (clock : Rfc3339) (cfg : Config) (state : PersistedState) : Type 0 where
  pub services : retired_count clock state.services ≤ pos_part cfg.max_retired_per_kind
  pub edges : retired_count clock state.edges ≤ pos_part cfg.max_retired_per_kind
  pub endpoints : retired_count clock state.endpoints ≤ pos_part cfg.max_retired_per_kind
  pub overall : total_retired clock state ≤ pos_part cfg.max_retired_overall

module _ (clock : Rfc3339) where
  -- The fields of the counts fall together.
  record IsFewer (a b : PersistedState) : Type 0 where
    services : retired_count clock a.services ≤ retired_count clock b.services
    edges : retired_count clock a.edges ≤ retired_count clock b.edges
    endpoints : retired_count clock a.endpoints ≤ retired_count clock b.endpoints
