-- ===== src/Runtime/Adapter/Usable.antt =====
-- reconciliation_adapter.go: what the adapter makes of a validated configuration.
use bering.Prelude.{
  ◌≤◌, ◌^◌, ◌≡◌, ℕ, zero, suc, true, false, ok, arith, Bool-cases, inl, inr, String,
}
use bering.Go.Int
use bering.Go.Int.{ℤ, pos}
use bering.Go.Float
use bering.Go.Float.{Float, FloatOps, InUnit, IsRounding, thousandths}
use bering.Reconciliation.Config.{default_config, with_defaults, or_default, or_default_int}
use bering.Reconciliation.Config.Valid.{IsUsable}
use bering.Config.{
  ServeConfig, RuntimeReconciliationConfig, validate_gaps, validate_beliefs,
  validate_reconciliation,
}
use bering.Runtime.Adapter.{MathOps, half_life_to_alpha, duration_to_windows, adapted}

-- What the adapter relies on of the comparison: a constant of the source from 0 to 1 is in the unit
-- interval, and a y that is neither at most 0 nor above an x that is at most 0 is no number, and
-- nothing is less than it.
pub record IsComparison (fl : FloatOps) : Type 0 where
  pub constant_InUnit : (n k : ℕ) → n ≤ 10 ^ k → k ≤ 3 → InUnit fl (fl.decimal n k)
  pub unordered :
      (x y d : Float)
      → Float.le fl x (fl.decimal 0 0) ≡ true
      → Float.le fl y (fl.decimal 0 0) ≡ false
      → fl.lt x y ≡ false
      → fl.lt d y ≡ false

thousandths-InUnit : (n k : ℕ) → n ≤ 10 ^ k → k ≤ 3 → InUnit thousandths (thousandths.decimal n k)
thousandths-InUnit n zero h b = ground arith
thousandths-InUnit n (suc zero) h b = ground arith
thousandths-InUnit n (suc (suc zero)) h b = ground arith
thousandths-InUnit n (suc (suc (suc zero))) h b = ground arith
thousandths-InUnit n (suc (suc (suc (suc k)))) h b = absurd (omega arith)

pub thousandths-IsComparison : IsComparison thousandths
thousandths-IsComparison = record {
  constant_InUnit = thousandths-InUnit;
  unordered = λ x y d low high less. absurd (ground arith);
}

-- What the validation of the settings finds.
record IsSettings (fl : FloatOps) (c : RuntimeReconciliationConfig) : Type 0 where
  opportunity : Int.le c.minimum_opportunity_windows (pos 0) ≡ false
  freeze : InUnit fl c.telemetry_health_freeze_threshold
  soft_gap : Float.le fl c.soft_gap_multiplier (fl.decimal 0 0) ≡ false
  gaps : fl.lt c.hard_gap_multiplier c.soft_gap_multiplier ≡ false
  soft : Int.le c.minimum_soft_windows (pos 0) ≡ false
  hard : Int.lt c.minimum_hard_windows c.minimum_soft_windows ≡ false
  stable_belief : InUnit fl c.stable_core_min_belief
  stable_activity : InUnit fl c.stable_core_min_activity
  guardrail_belief : InUnit fl c.guardrail_union_min_belief
  retirement : InUnit fl c.retirement_min_belief

module _ (fl : FloatOps) where
  validate_reconciliation-IsSettings :
      (c : RuntimeReconciliationConfig) → validate_reconciliation fl c ≡ ok tt → IsSettings fl c
  unfolding validate_reconciliation validate_gaps validate_beliefs
  validate_reconciliation-IsSettings c passed = ground (arith, passed)

  or_default-InUnit : (x d : Float) → InUnit fl x → InUnit fl d → InUnit fl (or_default fl x d)
  or_default-InUnit x d hx hd = ground (arith, hx, hd)

  or_default-positive :
      (x d : Float)
      → Float.le fl d (fl.decimal 0 0) ≡ false
      → Float.le fl (or_default fl x d) (fl.decimal 0 0) ≡ false
  or_default-positive x d h = ground (arith, h)

  or_default_int-positive :
      (z : ℤ) (n : ℕ) → Int.le (or_default_int fl z (pos (suc n))) (pos 0) ≡ false
  or_default_int-positive z n = ground arith

  module _ (math : MathOps) where
    -- The weight of the average is positive and at most 1, whatever `math.Exp` returns.
    half_life_to_alpha-InRange :
        (half_life size : ℤ) (fallback : Float)
        → Float.le fl fallback (fl.decimal 0 0) ≡ false
        → fl.lt (fl.decimal 1 0) fallback ≡ false
        → let alpha = half_life_to_alpha fl math half_life size fallback in
          (Float.le fl alpha (fl.decimal 0 0) ≡ false) × (fl.lt (fl.decimal 1 0) alpha ≡ false)
    unfolding half_life_to_alpha
    half_life_to_alpha-InRange half_life size fallback positive le_one =
        ground (arith, positive, le_one)

    duration_to_windows-positive :
        (interval size : ℤ) (n : ℕ)
        → Int.le (duration_to_windows fl math interval size (pos (suc n))) (pos 0) ≡ false
    unfolding duration_to_windows
    duration_to_windows-positive interval size n = ground arith

    hard_gap :
        (soft hard : Float)
        → IsComparison fl
        → Float.le fl soft (fl.decimal 0 0) ≡ false
        → fl.lt hard soft ≡ false
        → fl.lt (or_default fl hard (fl.decimal 30 1)) (or_default fl soft (fl.decimal 15 1))
          ≡ false
    hard_gap soft hard laws positive above = elim (Bool-cases (Float.le fl hard (fl.decimal 0 0))) [
      | inl low ↦ rw (low, positive) (laws.unordered hard soft (fl.decimal 30 1) low positive above)
      | inr high ↦ rw (high, positive) above
    ]

    -- The settings of the adapter are usable with their defaults, if the validation accepts those of
    -- the file.
    pub adapted-IsUsable :
        (state_path : String) (cfg : ServeConfig)
        → IsRounding fl
        → IsComparison fl
        → validate_reconciliation fl cfg.runtime.reconciliation ≡ ok tt
        → IsUsable fl (with_defaults fl (adapted fl math state_path cfg))
    unfolding with_defaults default_config adapted
    adapted-IsUsable state_path cfg rounding laws passed =
        let c = cfg.runtime.reconciliation in
        let h = validate_reconciliation-IsSettings c passed in
        let unit : (x : Float) (n : ℕ)
            → n ≤ 100
            → InUnit fl x
            → InUnit fl (or_default fl x (fl.decimal n 2)) =
          λ x n b hx.
            or_default-InUnit x _ hx (laws.constant_InUnit n 2 (omega (arith, b)) (omega arith)) in
        let tenths : (x : Float) (n : ℕ)
            → n ≤ 10
            → InUnit fl x
            → InUnit fl (or_default fl x (fl.decimal n 1)) =
          λ x n b hx.
            or_default-InUnit x _ hx (laws.constant_InUnit n 1 (omega (arith, b)) (omega arith)) in
        let fallback = rounding.decimal_positive 35 2 (omega arith) (omega arith) in
        let alpha =
          half_life_to_alpha-InRange c.decay_half_life cfg.runtime.window_size (fl.decimal 35 2)
            fallback (laws.constant_InUnit 35 2 (omega arith) (omega arith)).1 in
        record {
          soft_gap =
              or_default-positive c.soft_gap_multiplier (fl.decimal 15 1)
                (rounding.decimal_positive 15 1 (omega arith) (omega arith));
          gaps = hard_gap c.soft_gap_multiplier c.hard_gap_multiplier laws h.soft_gap h.gaps;
          windows = ground (arith, h.soft, h.hard);
          opportunity = ground (arith, h.opportunity);
          freeze = unit c.telemetry_health_freeze_threshold 55 (omega arith) h.freeze;
          alpha_positive = or_default-positive _ (fl.decimal 35 2) fallback;
          alpha_le_one = rw (alpha.0) alpha.1;
          stable_existence = tenths c.stable_core_min_belief 7 (omega arith) h.stable_belief;
          stable_activity = unit c.stable_core_min_activity 35 (omega arith) h.stable_activity;
          guardrail_existence =
              tenths c.guardrail_union_min_belief 3 (omega arith) h.guardrail_belief;
          retirement = unit c.retirement_min_belief 18 (omega arith) h.retirement;
          ttl = ground arith;
          cadence =
              ground (
                arith,
                duration_to_windows-positive c.compaction_interval cfg.runtime.window_size 4,
              );
          per_kind = ground arith;
          overall = ground arith;
        }
