-- ===== src/Reconciliation/Lifecycle/Advance.antt =====
-- engine.go: `advanceLifecycle` and `lifecycleTransition`; types.go: `gapThresholds`.
use bering.Prelude.{String, Bool, ◌&&◌, not, Option, none, some, if◌then◌else◌}
use bering.Go.Int
use bering.Go.Int.{ℤ, pos}
use bering.Go.Float
use bering.Go.Float.{Float, FloatOps}
use bering.Go.Time.{Time, Rfc3339}
use bering.Reconciliation.Types.{
  Kind, Lifecycle, candidate, active, stale, retired, same_lifecycle, EntityState, Transition,
  TelemetryHealth,
}
use bering.Reconciliation.Config.{Config}
use bering.Reconciliation.Numbers.{clamp01, max_float, min_float, max_int}

unfoldable pub lifecycle_transition :
    Kind → String → Lifecycle → Lifecycle → String → Option Transition
lifecycle_transition kind id from to reason =
    if same_lifecycle from to
    then none
    else some (record { kind = kind; id = id; from = from; to = to; reason = reason })

module _ (fl : FloatOps) (cfg : Config) where
  -- One threshold before the last comparison: from the gap, at least `least`, raised by the source.
  unfoldable pub raw_threshold : EntityState → Float → ℤ → Float → ℤ
  raw_threshold state multiplier least resistance =
      Int.add
        (max_int (fl.to_int (fl.ceil (fl.mul (fl.max (fl.decimal 1 0) state.gap_ema) multiplier)))
          least)
        (fl.to_int (fl.round (fl.mul state.source_strength resistance)))

  unfoldable pub gap_thresholds : EntityState → ℤ × ℤ
  unfolding raw_threshold
  gap_thresholds state =
      let soft =
        raw_threshold state cfg.soft_gap_multiplier cfg.min_soft_windows
          cfg.source_resistance_soft_windows in
      let hard =
        raw_threshold state cfg.hard_gap_multiplier cfg.min_hard_windows
          cfg.source_resistance_hard_windows in
      (soft, if Int.lt hard soft then soft else hard)

  module _ (clock : Rfc3339) where
    -- A window in which nothing could have shown the entity.
    unfoldable pub without_opportunity : EntityState → EntityState
    without_opportunity state = record state {
      activity_confidence =
          clamp01 fl (fl.sub state.activity_confidence cfg.passive_activity_decay);
      reason = "no qualified opportunity in current window";
    }

    -- The counters after a qualified miss.
    unfoldable pub count_miss : EntityState → ℤ → EntityState
    count_miss state version = record state {
      opportunity_windows = Int.add state.opportunity_windows (pos 1);
      last_opportunity = version;
      miss_streak = Int.add state.miss_streak (pos 1);
    }

    escalation : EntityState → ℤ → Float
    escalation state soft =
        max_float fl (fl.decimal 0 0) (fl.of_int (Int.add (Int.sub state.miss_streak soft) (pos 1)))

    resistance : EntityState → Float
    resistance state =
        fl.sub (fl.decimal 1 0)
          (min_float fl (fl.decimal 8 1) (fl.mul state.source_strength (fl.decimal 6 1)))

    penalty : EntityState → ℤ → Float → Float
    penalty state soft base =
        fl.mul (fl.add base (fl.mul cfg.additional_miss_penalty (escalation state soft)))
          (resistance state)

    -- The confidences after a miss; telemetry in doubt softens the loss of existence.
    unfoldable pub penalize : EntityState → ℤ → TelemetryHealth → Time → EntityState
    unfolding escalation resistance penalty
    penalize state soft health now = record state {
      activity_confidence =
          clamp01 fl
            (fl.sub state.activity_confidence (penalty state soft cfg.miss_activity_penalty));
      existence_confidence =
          if Int.le soft state.miss_streak
          then (let full = penalty state soft cfg.miss_existence_penalty in
              clamp01 fl (
                fl.sub state.existence_confidence
                  (if health.retirement_frozen then fl.mul full (fl.decimal 35 2) else full)))
          else state.existence_confidence;
      updated_at = clock.format now;
    }

    -- The switch at the end of `advanceLifecycle`.
    unfoldable pub settle : EntityState → ℤ → ℤ → TelemetryHealth → Time → EntityState
    settle state soft hard health now =
        if Int.le hard state.miss_streak
          && not health.retirement_frozen
          && Float.le fl state.existence_confidence cfg.retirement_existence_threshold
        then record state {
          lifecycle = retired;
          retired_at = clock.format now;
          reason = "retired after repeated qualified misses";
        }
        else if Int.le soft state.miss_streak
        then record state {
          lifecycle = stale;
          reason =
              if health.retirement_frozen
              then "stale after qualified misses; retirement frozen by telemetry health"
              else "stale after repeated qualified misses";
        }
        else if Float.le fl cfg.stable_core_existence_threshold state.existence_confidence
        then record state { lifecycle = active; reason = "retained as active" }
        else record state { lifecycle = candidate; reason = "insufficient evidence to promote" }

    unfoldable pub qualified_miss : EntityState → ℤ → Time → TelemetryHealth → EntityState
    qualified_miss state version now health =
        let counted = count_miss state version in
        let thresholds = gap_thresholds counted in
        settle (penalize counted thresholds.0 health now) thresholds.0 thresholds.1 health now

    with_transition : Lifecycle → EntityState → EntityState × Option Transition
    unfolding lifecycle_transition
    with_transition before state =
        (state, lifecycle_transition state.kind state.id before state.lifecycle state.reason)

    unfoldable pub advance_lifecycle :
        EntityState → ℤ → Time → ℤ → Bool → TelemetryHealth → EntityState × Option Transition
    unfolding without_opportunity with_transition
    advance_lifecycle state version now opportunity observed health =
        if observed
        then with_transition state.lifecycle
            (record state { reason = "observed in current window" })
        else if Int.lt opportunity cfg.minimum_opportunity_observations
        then with_transition state.lifecycle (without_opportunity state)
        else with_transition state.lifecycle (qualified_miss state version now health)
