-- ===== src/Reconciliation/Health/Bounds.antt =====
-- engine.go: what `evaluateTelemetryHealth` reports.
use bering.Prelude.{◌≡◌, refl, ◌↔◌, Bool, true, ◌++◌, arith}
use bering.Go.Float.{Float, FloatOps, InUnit, IsRounding}
use bering.Go.Map.{contains}
use bering.Snapshot.Types.{IngestSummary}
use bering.Reconciliation.Types.{TelemetryHealth}
use bering.Reconciliation.Config.{Config}
use bering.Reconciliation.Numbers.{clamp01-InUnit}
use bering.Reconciliation.Health.{evaluate_telemetry_health, reason_if}

-- A report of health that can be relied on: its ratios lie in the unit interval, retirement is
-- frozen exactly below the threshold, and then, and only then, its reasons say so.
pub record IsHealthReport (fl : FloatOps) (cfg : Config) (h : TelemetryHealth) : Type 0 where
  pub score : InUnit fl h.score
  pub drop_ratio : InUnit fl h.drop_ratio
  pub late_ratio : InUnit fl h.late_ratio
  pub volume_ratio : InUnit fl h.volume_ratio
  pub frozen_iff :
      (h.retirement_frozen ≡ true) ↔ (fl.lt h.score cfg.telemetry_freeze_threshold ≡ true)
  pub frozen_reason : contains h.reasons "retirement frozen" ≡ h.retirement_frozen

module _ (fl : FloatOps) where
  four_reasons :
      (a b c d : Bool)
      → contains
          (reason_if fl a "high dropped span ratio"
            ++ (reason_if fl b "high late span ratio"
                ++ (reason_if fl c "ingest volume below recent baseline"
                    ++ reason_if fl d "retirement frozen")))
          "retirement frozen"
        ≡ d
  unfolding reason_if contains
  four_reasons a b c d = ground arith

  module _ (laws : IsRounding fl) (cfg : Config) where
    -- Whatever was ingested, the health of a window is such a report, and the volume average that it
    -- shows is the one that the state keeps.
    pub evaluate-IsHealthReport :
        (ema : Float) (ingest : IngestSummary)
        → let r = evaluate_telemetry_health fl cfg ema ingest in
          IsHealthReport fl cfg r.0 × (r.0.volume_ema ≡ r.1)
    unfolding evaluate_telemetry_health
    evaluate-IsHealthReport ema ingest = (
      record {
        score = clamp01-InUnit fl laws _;
        drop_ratio = clamp01-InUnit fl laws _;
        late_ratio = clamp01-InUnit fl laws _;
        volume_ratio = clamp01-InUnit fl laws _;
        frozen_iff = (λ h. h, λ h. h);
        frozen_reason = four_reasons _ _ _ _;
      },
      refl,
    )
