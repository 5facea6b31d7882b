-- ===== src/Reconciliation/Health.antt =====
-- internal/reconciliation/engine.go: `evaluateTelemetryHealth`. It returns the new volume average
-- of the state beside the health.
pub mod Bounds
use bering.Prelude.{String, Bool, ◌&&◌, List, [], ◌∷◌, ◌++◌, if◌then◌else◌}
use bering.Go.Int
use bering.Go.Float
use bering.Go.Float.{Float, FloatOps}
use bering.Snapshot.Types.{IngestSummary}
use bering.Reconciliation.Types.{TelemetryHealth}
use bering.Reconciliation.Config.{Config}
use bering.Reconciliation.Numbers.{clamp01}

module _ (fl : FloatOps) where
  spans_total : IngestSummary → Float
  spans_total ingest =
      let total = fl.of_int (Int.add ingest.spans ingest.dropped_spans) in
      if Float.le fl total (fl.decimal 0 0) then fl.decimal 1 0 else total

  unfoldable pub next_volume_ema : Float → Float → Float
  next_volume_ema ema current =
      if fl.equal ema (fl.decimal 0 0)
      then current
      else fl.add (fl.mul ema (fl.decimal 7 1)) (fl.mul current (fl.decimal 3 1))

  volume_ratio_of : Float → Float → Float
  volume_ratio_of ema current =
      if fl.lt (fl.decimal 0 0) ema then fl.div current ema else fl.decimal 1 0

  unfoldable pub reason_if : Bool → String → List String
  reason_if b reason = if b then reason ∷ [] else []

  module _ (cfg : Config) where
    -- `MinimumOpportunityObservations*2` is a sum here.
    below_baseline : Float → Float → Bool
    below_baseline ema ratio =
        Float.le fl
          (fl.of_int
            (Int.add cfg.minimum_opportunity_observations cfg.minimum_opportunity_observations))
          ema
        && fl.lt ratio (fl.decimal 35 2)

    raw_score : Float → Float → Float → Float → Float
    raw_score drop late ema ratio =
        let base =
          fl.sub (fl.sub (fl.decimal 1 0) (fl.mul drop (fl.decimal 55 2)))
            (fl.mul late (fl.decimal 25 2)) in
        if below_baseline ema ratio
        then fl.sub base
            (fl.div (fl.mul (fl.decimal 25 2) (fl.sub (fl.decimal 35 2) ratio)) (fl.decimal 35 2))
        else base

    unfoldable pub evaluate_telemetry_health : Float → IngestSummary → TelemetryHealth × Float
    unfolding spans_total next_volume_ema volume_ratio_of reason_if below_baseline raw_score
    evaluate_telemetry_health ema ingest =
        let total = spans_total ingest in
        let drop = fl.div (fl.of_int ingest.dropped_spans) total in
        let late = fl.div (fl.of_int ingest.late_spans) total in
        let current = fl.of_int ingest.spans in
        let ema' = next_volume_ema ema current in
        let ratio = volume_ratio_of ema' current in
        let score = clamp01 fl (raw_score drop late ema' ratio) in
        let frozen = fl.lt score cfg.telemetry_freeze_threshold in
        (
          record {
            score = score;
            drop_ratio = clamp01 fl drop;
            late_ratio = clamp01 fl late;
            volume_ema = ema';
            volume_ratio = clamp01 fl ratio;
            retirement_frozen = frozen;
            reasons =
                reason_if (fl.lt (fl.decimal 15 2) drop) "high dropped span ratio"
                ++ (reason_if (fl.lt (fl.decimal 2 1) late) "high late span ratio"
                    ++ (reason_if (below_baseline ema' ratio) "ingest volume below recent baseline"
                        ++ reason_if frozen "retirement frozen"));
          },
          ema',
        )
