-- ===== src/Reconciliation/Lifecycle/Bounds.antt =====
-- engine.go: the range of the confidences of an entity.
use bering.Prelude.{Bool, true, false, arith, Bool-cases, inl, inr}
use bering.Go.Int
use bering.Go.Int.{ℤ}
use bering.Go.Float.{FloatOps, InUnit, IsRounding}
use bering.Go.Time.{Time, Rfc3339}
use bering.Reconciliation.Types.{EntityState, EntitySnapshot, TelemetryHealth}
use bering.Reconciliation.Config.{Config}
use bering.Reconciliation.Numbers.{clamp01-InUnit}
use bering.Reconciliation.Lifecycle.Observe.{observe_entity}
use bering.Reconciliation.Lifecycle.Advance.{
  without_opportunity, advance_lifecycle, qualified_miss, settle, penalize, count_miss,
}

pub record IsBounded (fl : FloatOps) (s : EntityState) : Type 0 where
  pub existence : InUnit fl s.existence_confidence
  pub activity : InUnit fl s.activity_confidence
  pub strength : InUnit fl s.source_strength

module _ (fl : FloatOps) (laws : IsRounding fl) (cfg : Config) (clock : Rfc3339) where
  -- Whatever they were, a sighting leaves both confidences and the source strength of an entity in
  -- the unit interval, if rounding to thousandths does not leave it.
  pub observe_entity-IsBounded :
      (s : EntityState) (snap : EntitySnapshot) (version : ℤ) (now : Time)
      → IsBounded fl (observe_entity fl cfg clock s snap version now)
  unfolding observe_entity
  observe_entity-IsBounded s snap version now = record {
    existence = grind (arith, clamp01-InUnit fl laws);
    activity = grind (arith, clamp01-InUnit fl laws);
    strength = grind (arith, clamp01-InUnit fl laws);
  }

  without_opportunity-IsBounded :
      (s : EntityState) → IsBounded fl s → IsBounded fl (without_opportunity fl cfg clock s)
  unfolding without_opportunity
  without_opportunity-IsBounded s b = record {
    existence = b.existence;
    activity = clamp01-InUnit fl laws _;
    strength = b.strength;
  }

  penalize-IsBounded :
      (s : EntityState) (soft : ℤ) (health : TelemetryHealth) (now : Time)
      → IsBounded fl s
      → IsBounded fl (penalize fl cfg clock s soft health now)
  unfolding penalize
  penalize-IsBounded s soft health now b = record {
    existence = grind (arith, clamp01-InUnit fl laws);
    activity = grind (arith, clamp01-InUnit fl laws);
    strength = b.strength;
  }

  settle-IsBounded :
      (s : EntityState) (soft hard : ℤ) (health : TelemetryHealth) (now : Time)
      → IsBounded fl s
      → IsBounded fl (settle fl cfg clock s soft hard health now)
  unfolding settle
  settle-IsBounded s soft hard health now b = ground arith

  count_miss-IsBounded :
      (s : EntityState) (version : ℤ)
      → IsBounded fl s
      → IsBounded fl (count_miss fl cfg clock s version)
  unfolding count_miss
  count_miss-IsBounded s version b = ground arith

  qualified_miss-IsBounded :
      (s : EntityState) (version : ℤ) (now : Time) (health : TelemetryHealth)
      → IsBounded fl s
      → IsBounded fl (qualified_miss fl cfg clock s version now health)
  unfolding qualified_miss
  qualified_miss-IsBounded s version now health b =
      settle-IsBounded _ _ _ health now
        (penalize-IsBounded _ _ health now (count_miss-IsBounded s version b))

  -- On every branch, the end of a window keeps both confidences and the source strength of an entity
  -- in the unit interval if they lie there, and if rounding to thousandths respects the interval.
  pub advance_lifecycle-IsBounded :
      (s : EntityState) (version : ℤ) (now : Time) (opportunity : ℤ) (observed : Bool)
      (health : TelemetryHealth)
      → IsBounded fl s
      → IsBounded fl (advance_lifecycle fl cfg clock s version now opportunity observed health).0
  unfolding advance_lifecycle
  advance_lifecycle-IsBounded s version now opportunity true health b = ground arith
  advance_lifecycle-IsBounded s version now opportunity false health b =
      elim (Bool-cases (Int.lt opportunity cfg.minimum_opportunity_observations)) [
        | inl few ↦ rw few (without_opportunity-IsBounded s b)
        | inr enough ↦ rw enough (qualified_miss-IsBounded s version now health b)
      ]
