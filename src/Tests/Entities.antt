-- ===== src/Tests/Entities.antt =====
-- One entity at small inputs.
use bering.Prelude.{◌≡◌, refl, ◌≢◌, ◌↔◌, true, false, ok}
use bering.Go.Int
use bering.Go.Int.{pos, ◌≤ℤ◌}
use bering.Go.Float
use bering.Go.Float.{thousandths, thousandths-IsRounding}
use bering.Reconciliation.Numbers.{max_int, clamp01, max_float, min_float}
use bering.Reconciliation.Types.{Lifecycle, stale, retired, EntityState}
use bering.Reconciliation.Config.{Config, default_config, with_defaults, validate}
use bering.Reconciliation.Config.Valid.{IsUsable, validate_iff}
use bering.Reconciliation.Lifecycle.Observe.{observe_entity}
use bering.Reconciliation.Lifecycle.Advance.{
  advance_lifecycle, gap_thresholds, qualified_miss, settle, count_miss, penalize,
}
use bering.Reconciliation.Lifecycle.Thresholds.{gap_thresholds-ordered}
use bering.Reconciliation.Lifecycle.Sighting.{IsSighted, observe_entity-IsSighted}
use bering.Reconciliation.Lifecycle.Retirement.{
  Reports, advance-retires_iff, advance-frozen_ne_retired, advance-transition,
}
use bering.Reconciliation.Lifecycle.Bounds.{
  IsBounded, observe_entity-IsBounded, advance_lifecycle-IsBounded,
}
use bering.Reconciliation.Health.{evaluate_telemetry_health}
use bering.Reconciliation.Health.Bounds.{IsHealthReport, evaluate-IsHealthReport}
use bering.Tests.Samples.{clock, web_state, web_snapshot, health, ingest}

abbrev cfg : Config
unfolding default_config
cfg = default_config thousandths

-- A service that was missed six times, with little left of its confidence.
abbrev fading : EntityState
fading = record web_state { existence_confidence = 100; miss_streak = pos 6; lifecycle = stale }

fading_retires :
    (advance_lifecycle thousandths cfg clock fading
      (pos 10)
      5
      (pos 4)
      false
      (health false)).0.lifecycle
    ≡ retired
unfolding advance_lifecycle default_config gap_thresholds qualified_miss settle Int.add max_int
    count_miss penalize clamp01 max_float Int.sub min_float
fading_retires = refl

default_passes : validate thousandths cfg ≡ ok tt
unfolding validate default_config
default_passes = refl

validate_iff_example :
    (validate thousandths cfg ≡ ok tt) ↔ IsUsable thousandths (with_defaults thousandths cfg)
validate_iff_example = validate_iff thousandths cfg

gap_thresholds-ordered_example :
    (gap_thresholds thousandths cfg fading).0 ≤ℤ (gap_thresholds thousandths cfg fading).1
gap_thresholds-ordered_example = gap_thresholds-ordered thousandths cfg fading

observe_entity-IsSighted_example :
    IsSighted thousandths cfg
      (pos 4)
      web_snapshot
      fading
      (observe_entity thousandths cfg clock fading web_snapshot (pos 4) 5)
observe_entity-IsSighted_example =
    observe_entity-IsSighted thousandths cfg clock fading web_snapshot (pos 4) 5

observe_entity-IsBounded_example :
    IsBounded thousandths (observe_entity thousandths cfg clock fading web_snapshot (pos 4) 5)
observe_entity-IsBounded_example =
    observe_entity-IsBounded thousandths thousandths-IsRounding cfg clock fading web_snapshot
      (pos 4) 5

fading-IsBounded : IsBounded thousandths fading
fading-IsBounded = record {
  existence = (refl, refl);
  activity = (refl, refl);
  strength = (refl, refl);
}

advance_lifecycle-IsBounded_example :
    IsBounded thousandths
      (advance_lifecycle thousandths cfg clock fading (pos 10) 5 (pos 4) false (health false)).0
advance_lifecycle-IsBounded_example =
    advance_lifecycle-IsBounded thousandths thousandths-IsRounding cfg clock fading (pos 10) 5
      (pos 4) false (health false) fading-IsBounded

advance-retires_iff_example :
    let s' =
      (advance_lifecycle thousandths cfg clock fading (pos 10) 5 (pos 4) false (health false)).0 in
    (s'.lifecycle ≡ retired) ↔ (
      (Int.le (gap_thresholds thousandths cfg fading).1 (Int.add (pos 6) (pos 1)) ≡ true)
      × ((health false).retirement_frozen ≡ false)
      × (Float.le thousandths s'.existence_confidence cfg.retirement_existence_threshold ≡ true))
unfolding default_config
advance-retires_iff_example =
    advance-retires_iff thousandths cfg clock fading (pos 10) 5 (pos 4) false (health false)
      (refl, refl)

stale≢retired : Lifecycle.stale ≢ retired
stale≢retired e = cc

advance-frozen_ne_retired_example :
    (advance_lifecycle thousandths cfg clock fading
      (pos 10)
      5
      (pos 4)
      false
      (health true)).0.lifecycle
    ≢ retired
advance-frozen_ne_retired_example =
    advance-frozen_ne_retired thousandths cfg clock fading (pos 10) 5 (pos 4) false (health true)
      refl stale≢retired

advance-transition_example :
    let after =
      advance_lifecycle thousandths cfg clock fading (pos 10) 5 (pos 4) false (health false) in
    Reports fading after.0 after.1
advance-transition_example =
    advance-transition thousandths cfg clock fading (pos 10) 5 (pos 4) false (health false)

evaluate-IsHealthReport_example :
    let r = evaluate_telemetry_health thousandths cfg 0 ingest in
    IsHealthReport thousandths cfg r.0 × (r.0.volume_ema ≡ r.1)
evaluate-IsHealthReport_example =
    evaluate-IsHealthReport thousandths thousandths-IsRounding cfg 0 ingest

-- A service that was retired windows ago and is missed again.
abbrev gone : EntityState
gone = record fading { lifecycle = retired; retired_at = "1969-12-31T00:00:00Z" }

gone_is_restamped :
    let after =
      (advance_lifecycle thousandths cfg clock gone (pos 10) 5 (pos 4) false (health false)).0 in
    (after.lifecycle ≡ retired) × (after.retired_at ≡ clock.format 5)
unfolding advance_lifecycle default_config gap_thresholds qualified_miss settle Int.add max_int
    count_miss penalize clamp01 max_float Int.sub min_float
gone_is_restamped = (refl, refl)
