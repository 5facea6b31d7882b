-- ===== src/Reconciliation/Lifecycle/Thresholds.antt =====
-- types.go: the order of the two thresholds of `gapThresholds`.
use bering.Prelude.{arith, if◌then◌else◌}
use bering.Go.Int
use bering.Go.Int.{ℤ, ◌≤ℤ◌}
use bering.Go.Float.{FloatOps}
use bering.Reconciliation.Types.{EntityState}
use bering.Reconciliation.Config.{Config}
use bering.Reconciliation.Lifecycle.Advance.{gap_thresholds, raw_threshold}

raise_to : (soft hard : ℤ) → soft ≤ℤ (if Int.lt hard soft then soft else hard)
raise_to soft hard = ground arith

module _ (fl : FloatOps) (cfg : Config) (state : EntityState) where
  -- Whatever the configuration and the state, the soft threshold is at most the hard one.
  pub gap_thresholds-ordered : (gap_thresholds fl cfg state).0 ≤ℤ (gap_thresholds fl cfg state).1
  unfolding gap_thresholds
  gap_thresholds-ordered =
      raise_to
        (raw_threshold fl cfg state cfg.soft_gap_multiplier cfg.min_soft_windows
          cfg.source_resistance_soft_windows)
        (raw_threshold fl cfg state cfg.hard_gap_multiplier cfg.min_hard_windows
          cfg.source_resistance_hard_windows)
