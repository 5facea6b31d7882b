-- ===== src/Reconciliation/Config.antt =====
-- internal/reconciliation/config.go: the configuration, its defaults and its validation. A duration
-- is its nanoseconds.
pub mod Valid
use bering.Prelude.{◌*◌, String, Bool, true, ◌||◌, ◌>>◌, Checked, fail_if, if◌then◌else◌}
use bering.Go.Int
use bering.Go.Int.{ℤ, pos}
use bering.Go.Float
use bering.Go.Float.{Float, FloatOps}
use bering.Go.Text.{trim_space}

pub record Config : Type 0 where
  pub enabled : Bool
  pub state_path : String
  pub soft_gap_multiplier : Float
  pub hard_gap_multiplier : Float
  pub min_soft_windows : ℤ
  pub min_hard_windows : ℤ
  pub minimum_opportunity_observations : ℤ
  pub telemetry_freeze_threshold : Float
  pub gap_ema_alpha : Float
  pub positive_existence_boost : Float
  pub positive_activity_boost : Float
  pub passive_activity_decay : Float
  pub miss_activity_penalty : Float
  pub miss_existence_penalty : Float
  pub additional_miss_penalty : Float
  pub source_resistance_soft_windows : Float
  pub source_resistance_hard_windows : Float
  pub stable_core_existence_threshold : Float
  pub stable_core_activity_threshold : Float
  pub guardrail_union_existence_threshold : Float
  pub retirement_existence_threshold : Float
  pub retired_ttl : ℤ
  pub compaction_cadence : ℤ
  pub max_retired_per_kind : ℤ
  pub max_retired_overall : ℤ

pub data ConfigError : Type 0 where
  soft_gap_multiplier_positive hard_gap_below_soft_gap min_hard_below_min_soft : ConfigError
  minimum_opportunity_positive telemetry_freeze_range gap_ema_alpha_range : ConfigError
  stable_core_existence_range stable_core_activity_range guardrail_existence_range : ConfigError
  retirement_existence_range retired_ttl_positive compaction_cadence_positive : ConfigError
  max_retired_per_kind_positive max_retired_overall_positive : ConfigError

module _ (fl : FloatOps) where
  unfoldable pub default_config : Config
  default_config = record {
    enabled = true;
    state_path = "";
    soft_gap_multiplier = fl.decimal 15 1;
    hard_gap_multiplier = fl.decimal 30 1;
    min_soft_windows = pos 2;
    min_hard_windows = pos 5;
    minimum_opportunity_observations = pos 2;
    telemetry_freeze_threshold = fl.decimal 55 2;
    gap_ema_alpha = fl.decimal 35 2;
    positive_existence_boost = fl.decimal 42 2;
    positive_activity_boost = fl.decimal 55 2;
    passive_activity_decay = fl.decimal 4 2;
    miss_activity_penalty = fl.decimal 12 2;
    miss_existence_penalty = fl.decimal 8 2;
    additional_miss_penalty = fl.decimal 5 2;
    source_resistance_soft_windows = fl.decimal 20 1;
    source_resistance_hard_windows = fl.decimal 40 1;
    stable_core_existence_threshold = fl.decimal 7 1;
    stable_core_activity_threshold = fl.decimal 35 2;
    guardrail_union_existence_threshold = fl.decimal 3 1;
    retirement_existence_threshold = fl.decimal 18 2;
    retired_ttl = pos (24 * 60 * 60 * 1000000000);
    compaction_cadence = pos 5;
    max_retired_per_kind = pos 200;
    max_retired_overall = pos 500;
  }

  -- `if x <= 0 { x = d }`
  abbrev pub or_default : Float → Float → Float
  or_default x d = if Float.le fl x (fl.decimal 0 0) then d else x

  -- `if x < 0 { x = d }`
  abbrev pub or_default_negative : Float → Float → Float
  or_default_negative x d = if fl.lt x (fl.decimal 0 0) then d else x

  abbrev pub or_default_int : ℤ → ℤ → ℤ
  or_default_int x d = if Int.le x (pos 0) then d else x

  unfoldable pub with_defaults : Config → Config
  with_defaults c =
      let defaults = default_config in
      record {
        enabled = c.enabled;
        state_path = c.state_path;
        soft_gap_multiplier = or_default c.soft_gap_multiplier defaults.soft_gap_multiplier;
        hard_gap_multiplier = or_default c.hard_gap_multiplier defaults.hard_gap_multiplier;
        min_soft_windows = or_default_int c.min_soft_windows defaults.min_soft_windows;
        min_hard_windows = or_default_int c.min_hard_windows defaults.min_hard_windows;
        minimum_opportunity_observations =
            or_default_int c.minimum_opportunity_observations
              defaults.minimum_opportunity_observations;
        telemetry_freeze_threshold =
            or_default c.telemetry_freeze_threshold defaults.telemetry_freeze_threshold;
        gap_ema_alpha = or_default c.gap_ema_alpha defaults.gap_ema_alpha;
        positive_existence_boost =
            or_default c.positive_existence_boost defaults.positive_existence_boost;
        positive_activity_boost =
            or_default c.positive_activity_boost defaults.positive_activity_boost;
        passive_activity_decay =
            or_default c.passive_activity_decay defaults.passive_activity_decay;
        miss_activity_penalty = or_default c.miss_activity_penalty defaults.miss_activity_penalty;
        miss_existence_penalty =
            or_default c.miss_existence_penalty defaults.miss_existence_penalty;
        additional_miss_penalty =
            or_default c.additional_miss_penalty defaults.additional_miss_penalty;
        source_resistance_soft_windows =
            or_default_negative c.source_resistance_soft_windows
              defaults.source_resistance_soft_windows;
        source_resistance_hard_windows =
            or_default_negative c.source_resistance_hard_windows
              defaults.source_resistance_hard_windows;
        stable_core_existence_threshold =
            or_default c.stable_core_existence_threshold defaults.stable_core_existence_threshold;
        stable_core_activity_threshold =
            or_default c.stable_core_activity_threshold defaults.stable_core_activity_threshold;
        guardrail_union_existence_threshold =
            or_default c.guardrail_union_existence_threshold
              defaults.guardrail_union_existence_threshold;
        retirement_existence_threshold =
            or_default c.retirement_existence_threshold defaults.retirement_existence_threshold;
        retired_ttl = or_default_int c.retired_ttl defaults.retired_ttl;
        compaction_cadence = or_default_int c.compaction_cadence defaults.compaction_cadence;
        max_retired_per_kind = or_default_int c.max_retired_per_kind defaults.max_retired_per_kind;
        max_retired_overall = or_default_int c.max_retired_overall defaults.max_retired_overall;
      }

  -- `x < 0 || x > 1`
  abbrev out_of_unit : Float → Bool
  out_of_unit x = fl.lt x (fl.decimal 0 0) || fl.lt (fl.decimal 1 0) x

  -- The cases of `Validate`, in order, on a configuration with its defaults.
  pub check_config : Config → Checked ConfigError
  check_config c = do
    fail_if (Float.le fl c.soft_gap_multiplier (fl.decimal 0 0)) soft_gap_multiplier_positive
    fail_if (fl.lt c.hard_gap_multiplier c.soft_gap_multiplier) hard_gap_below_soft_gap
    fail_if (Int.lt c.min_hard_windows c.min_soft_windows) min_hard_below_min_soft
    fail_if (Int.le c.minimum_opportunity_observations (pos 0)) minimum_opportunity_positive
    fail_if (out_of_unit c.telemetry_freeze_threshold) telemetry_freeze_range
    fail_if (Float.le fl c.gap_ema_alpha (fl.decimal 0 0) || fl.lt (fl.decimal 1 0) c.gap_ema_alpha)
        gap_ema_alpha_range
    fail_if (out_of_unit c.stable_core_existence_threshold) stable_core_existence_range
    fail_if (out_of_unit c.stable_core_activity_threshold) stable_core_activity_range
    fail_if (out_of_unit c.guardrail_union_existence_threshold) guardrail_existence_range
    fail_if (out_of_unit c.retirement_existence_threshold) retirement_existence_range
    fail_if (Int.le c.retired_ttl (pos 0)) retired_ttl_positive
    fail_if (Int.le c.compaction_cadence (pos 0)) compaction_cadence_positive
    fail_if (Int.le c.max_retired_per_kind (pos 0)) max_retired_per_kind_positive
    fail_if (Int.le c.max_retired_overall (pos 0)) max_retired_overall_positive

  unfoldable pub validate : Config → Checked ConfigError
  unfolding check_config with_defaults
  validate c = check_config (with_defaults c)

-- `sanitizeStatePath`
abbrev pub sanitize_state_path : String → String
sanitize_state_path path = trim_space path
