-- ===== src/Reconciliation/Config/Valid.antt =====
-- config.go: what a validated configuration is.
use bering.Prelude.{◌*◌, ◌≡◌, ◌↔◌, false, ok, arith, Bool-cases, inl, inr, ◌≤◌, ◌<◌, ℕ}
use bering.Go.Int.{ℤ, pos, ◌≤ℤ◌}
use bering.Go.Float
use bering.Go.Float.{Float, FloatOps, InUnit, IsRounding}
use bering.Reconciliation.Config.{
  Config, with_defaults, validate, check_config, default_config, or_default, or_default_negative,
  or_default_int,
}

-- A configuration that the reconciler can run with.
pub record IsUsable (fl : FloatOps) (c : Config) : Type 0 where
  pub soft_gap : Float.le fl c.soft_gap_multiplier (fl.decimal 0 0) ≡ false
  pub gaps : fl.lt c.hard_gap_multiplier c.soft_gap_multiplier ≡ false
  pub windows : c.min_soft_windows ≤ℤ c.min_hard_windows
  pub opportunity : pos 1 ≤ℤ c.minimum_opportunity_observations
  pub freeze : InUnit fl c.telemetry_freeze_threshold
  pub alpha_positive : Float.le fl c.gap_ema_alpha (fl.decimal 0 0) ≡ false
  pub alpha_le_one : fl.lt (fl.decimal 1 0) c.gap_ema_alpha ≡ false
  pub stable_existence : InUnit fl c.stable_core_existence_threshold
  pub stable_activity : InUnit fl c.stable_core_activity_threshold
  pub guardrail_existence : InUnit fl c.guardrail_union_existence_threshold
  pub retirement : InUnit fl c.retirement_existence_threshold
  pub ttl : pos 1 ≤ℤ c.retired_ttl
  pub cadence : pos 1 ≤ℤ c.compaction_cadence
  pub per_kind : pos 1 ≤ℤ c.max_retired_per_kind
  pub overall : pos 1 ≤ℤ c.max_retired_overall

module _ (fl : FloatOps) where
  check_config_iff : (c : Config) → (check_config fl c ≡ ok tt) ↔ IsUsable fl c
  unfolding check_config
  check_config_iff c = ground arith

  -- `Validate` accepts exactly the configurations that are usable once their defaults are filled in.
  pub validate_iff : (c : Config) → (validate fl c ≡ ok tt) ↔ IsUsable fl (with_defaults fl c)
  unfolding validate
  validate_iff c = check_config_iff (with_defaults fl c)

  or_default_twice :
      (x d : Float)
      → Float.le fl d (fl.decimal 0 0) ≡ false
      → or_default fl (or_default fl x d) d ≡ or_default fl x d
  or_default_twice x d h = elim (Bool-cases (Float.le fl x (fl.decimal 0 0))) [
    | inl low ↦ rw (low, h)
    | inr high ↦ rw (high, high)
  ]

  constant_twice :
      IsRounding fl
      → (x : Float) (n k : ℕ) → 0 < n
      → k ≤ 3
      → or_default fl (or_default fl x (fl.decimal n k)) (fl.decimal n k)
        ≡ or_default fl x (fl.decimal n k)
  constant_twice laws x n k h b =
      or_default_twice x (fl.decimal n k) (laws.decimal_positive n k h b)

  or_default_int_twice :
      (x : ℤ) (d : ℕ)
      → 0 < d
      → or_default_int fl (or_default_int fl x (pos d)) (pos d) ≡ or_default_int fl x (pos d)
  or_default_int_twice x d h = ground arith

  or_default_negative_twice :
      (x d : Float)
      → or_default_negative fl (or_default_negative fl x d) d ≡ or_default_negative fl x d
  or_default_negative_twice x d = elim (Bool-cases (fl.lt x (fl.decimal 0 0))) [
    | inl low ↦ ground arith
    | inr high ↦ rw (high, high)
  ]

  -- Filling in the defaults of a configuration that has them changes nothing, if the decimal
  -- constants of the source are positive.
  pub with_defaults_idempotent :
      IsRounding fl → (c : Config) → with_defaults fl (with_defaults fl c) ≡ with_defaults fl c
  unfolding with_defaults default_config
  with_defaults_idempotent laws c = λ i. record {
    enabled = c.enabled;
    state_path = c.state_path;
    soft_gap_multiplier =
        constant_twice laws c.soft_gap_multiplier 15 1 (omega arith) (omega arith) i;
    hard_gap_multiplier =
        constant_twice laws c.hard_gap_multiplier 30 1 (omega arith) (omega arith) i;
    min_soft_windows = or_default_int_twice c.min_soft_windows 2 (omega arith) i;
    min_hard_windows = or_default_int_twice c.min_hard_windows 5 (omega arith) i;
    minimum_opportunity_observations =
        or_default_int_twice c.minimum_opportunity_observations 2 (omega arith) i;
    telemetry_freeze_threshold =
        constant_twice laws c.telemetry_freeze_threshold 55 2 (omega arith) (omega arith) i;
    gap_ema_alpha = constant_twice laws c.gap_ema_alpha 35 2 (omega arith) (omega arith) i;
    positive_existence_boost =
        constant_twice laws c.positive_existence_boost 42 2 (omega arith) (omega arith) i;
    positive_activity_boost =
        constant_twice laws c.positive_activity_boost 55 2 (omega arith) (omega arith) i;
    passive_activity_decay =
        constant_twice laws c.passive_activity_decay 4 2 (omega arith) (omega arith) i;
    miss_activity_penalty =
        constant_twice laws c.miss_activity_penalty 12 2 (omega arith) (omega arith) i;
    miss_existence_penalty =
        constant_twice laws c.miss_existence_penalty 8 2 (omega arith) (omega arith) i;
    additional_miss_penalty =
        constant_twice laws c.additional_miss_penalty 5 2 (omega arith) (omega arith) i;
    source_resistance_soft_windows =
        or_default_negative_twice c.source_resistance_soft_windows (fl.decimal 20 1) i;
    source_resistance_hard_windows =
        or_default_negative_twice c.source_resistance_hard_windows (fl.decimal 40 1) i;
    stable_core_existence_threshold =
        constant_twice laws c.stable_core_existence_threshold 7 1 (omega arith) (omega arith) i;
    stable_core_activity_threshold =
        constant_twice laws c.stable_core_activity_threshold 35 2 (omega arith) (omega arith) i;
    guardrail_union_existence_threshold =
        constant_twice laws c.guardrail_union_existence_threshold 3 1 (omega arith) (omega arith) i;
    retirement_existence_threshold =
        constant_twice laws c.retirement_existence_threshold 18 2 (omega arith) (omega arith) i;
    retired_ttl = or_default_int_twice c.retired_ttl (24 * 60 * 60 * 1000000000) (omega arith) i;
    compaction_cadence = or_default_int_twice c.compaction_cadence 5 (omega arith) i;
    max_retired_per_kind = or_default_int_twice c.max_retired_per_kind 200 (omega arith) i;
    max_retired_overall = or_default_int_twice c.max_retired_overall 500 (omega arith) i;
  }
