-- ===== src/Config.antt =====
-- internal/config/serve.go: the configuration of the server, its defaults and its validation. A
-- duration is its nanoseconds; the decoding of YAML and JSON is not modelled.
use bering.Prelude.{
  ◌*◌, String, Bool, true, false, ◌&&◌, ◌||◌, not, List, [], ◌==◌, if◌then◌else◌, ◌>>◌, Checked,
  fail_if,
}
use bering.Go.Int
use bering.Go.Int.{ℤ, pos}
use bering.Go.Float
use bering.Go.Float.{Float, FloatOps}
use bering.Go.Text.{trim_space, to_lower, is_blank}
use bering.Go.Time.{second}

pub record ServerConfig : Type 0 where
  pub listen_address : String
  pub grpc_listen_address : String
  pub max_request_bytes : ℤ

pub record RuntimeReconciliationConfig : Type 0 where
  pub enabled : Bool
  pub state_path : String
  pub report_path : String
  pub summary_path : String
  pub raw_window_path : String
  pub stable_core_path : String
  pub decay_half_life : ℤ
  pub minimum_opportunity_windows : ℤ
  pub telemetry_health_freeze_threshold : Float
  pub soft_gap_multiplier : Float
  pub hard_gap_multiplier : Float
  pub minimum_soft_windows : ℤ
  pub minimum_hard_windows : ℤ
  pub stable_core_min_belief : Float
  pub stable_core_min_activity : Float
  pub guardrail_union_min_belief : Float
  pub retirement_min_belief : Float
  pub retired_ttl : ℤ
  pub max_retained_retired_entities : ℤ
  pub compaction_interval : ℤ

pub record RuntimeConfig : Type 0 where
  pub publication_mode : String
  pub flush_interval : ℤ
  pub window_size : ℤ
  pub max_in_memory_spans : ℤ
  pub late_span_policy : String
  pub reconciliation : RuntimeReconciliationConfig

pub record SinkConfig : Type 0 where
  pub directory : String
  pub latest_path : String
  pub signal_quality_path : String

pub record LoggingConfig : Type 0 where
  pub structured : Bool

pub record SourceConfig : Type 0 where
  pub id : String
  pub type : String
  pub domain : String
  pub capture_directory : String

pub record ServeConfig : Type 0 where
  pub server : ServerConfig
  pub runtime : RuntimeConfig
  pub sink : SinkConfig
  pub logging : LoggingConfig
  pub overlays : List String
  pub sources : List SourceConfig

abbrev pub publication_mode_windowed : String
publication_mode_windowed = "windowed"

abbrev pub publication_mode_on_shutdown : String
publication_mode_on_shutdown = "on_shutdown"

pub data ServeError : Type 0 where
  listen_address_empty grpc_address_same max_request_bytes_positive : ServeError
  publication_mode_unknown flush_interval_positive window_size_positive : ServeError
  reconciliation_on_shutdown max_in_memory_spans_positive late_span_policy_unknown : ServeError
  directory_empty : ServeError
  decay_half_life_positive minimum_opportunity_positive freeze_threshold_range : ServeError
  soft_gap_positive hard_gap_below_soft_gap minimum_soft_positive : ServeError
  minimum_hard_below_soft stable_belief_range stable_activity_range : ServeError
  guardrail_belief_range retirement_belief_range stable_below_guardrail : ServeError
  retired_ttl_positive max_retained_positive compaction_interval_positive : ServeError

unfoldable pub known_policy : String → Bool
known_policy policy =
    let name = to_lower (trim_space policy) in name == "drop" || name == "current_window"

-- The mode, windowed where none is given.
unfoldable pub mode_of : RuntimeConfig → String
mode_of r = if r.publication_mode == "" then publication_mode_windowed else r.publication_mode

module _ (fl : FloatOps) where
  unfoldable pub default_serve_config : ServeConfig
  default_serve_config = record {
    server = record {
      listen_address = ":8080";
      grpc_listen_address = "";
      max_request_bytes = pos (5 * 1048576);
    };
    runtime = record {
      publication_mode = publication_mode_windowed;
      flush_interval = pos (5 * second);
      window_size = pos (30 * second);
      max_in_memory_spans = pos 10000;
      late_span_policy = "drop";
      reconciliation = record {
        enabled = true;
        state_path = "out/reconciliation-state.json";
        report_path = "out/reconciliation-report.json";
        summary_path = "out/reconciliation-summary.md";
        raw_window_path = "out/latest-raw-window.json";
        stable_core_path = "out/latest-stable-core.json";
        decay_half_life = pos (600 * second);
        minimum_opportunity_windows = pos 2;
        telemetry_health_freeze_threshold = fl.decimal 55 2;
        soft_gap_multiplier = fl.decimal 15 1;
        hard_gap_multiplier = fl.decimal 30 1;
        minimum_soft_windows = pos 2;
        minimum_hard_windows = pos 5;
        stable_core_min_belief = fl.decimal 70 2;
        stable_core_min_activity = fl.decimal 35 2;
        guardrail_union_min_belief = fl.decimal 30 2;
        retirement_min_belief = fl.decimal 18 2;
        retired_ttl = pos (86400 * second);
        max_retained_retired_entities = pos 500;
        compaction_interval = pos (150 * second);
      };
    };
    sink = record {
      directory = "out/snapshots";
      latest_path = "out/latest-snapshot.json";
      signal_quality_path = "out/latest-signal-quality.json";
    };
    logging = record { structured = false };
    overlays = [];
    sources = [];
  }

  -- `value < 0 || value > 1`
  abbrev out_of_unit : Float → Bool
  out_of_unit x = fl.lt x (fl.decimal 0 0) || fl.lt (fl.decimal 1 0) x

  unfoldable pub validate_gaps : RuntimeReconciliationConfig → Checked ServeError
  validate_gaps c = do
    fail_if (Int.le c.decay_half_life (pos 0)) decay_half_life_positive
    fail_if (Int.le c.minimum_opportunity_windows (pos 0)) minimum_opportunity_positive
    fail_if (out_of_unit c.telemetry_health_freeze_threshold) freeze_threshold_range
    fail_if (Float.le fl c.soft_gap_multiplier (fl.decimal 0 0)) soft_gap_positive
    fail_if (fl.lt c.hard_gap_multiplier c.soft_gap_multiplier) hard_gap_below_soft_gap
    fail_if (Int.le c.minimum_soft_windows (pos 0)) minimum_soft_positive
    fail_if (Int.lt c.minimum_hard_windows c.minimum_soft_windows) minimum_hard_below_soft

  unfoldable pub validate_beliefs : RuntimeReconciliationConfig → Checked ServeError
  validate_beliefs c = do
    fail_if (out_of_unit c.stable_core_min_belief) stable_belief_range
    fail_if (out_of_unit c.stable_core_min_activity) stable_activity_range
    fail_if (out_of_unit c.guardrail_union_min_belief) guardrail_belief_range
    fail_if (out_of_unit c.retirement_min_belief) retirement_belief_range
    fail_if (fl.lt c.stable_core_min_belief c.guardrail_union_min_belief) stable_below_guardrail
    fail_if (Int.le c.retired_ttl (pos 0)) retired_ttl_positive
    fail_if (Int.le c.max_retained_retired_entities (pos 0)) max_retained_positive
    fail_if (Int.le c.compaction_interval (pos 0)) compaction_interval_positive

  -- `RuntimeReconciliationConfig.Validate`
  unfoldable pub validate_reconciliation : RuntimeReconciliationConfig → Checked ServeError
  validate_reconciliation c = do validate_gaps c; validate_beliefs c

  unfoldable pub validate_server : ServerConfig → Checked ServeError
  validate_server s = do
    fail_if (is_blank (trim_space s.listen_address)) listen_address_empty
    fail_if
        (not (is_blank (trim_space s.grpc_listen_address))
          && trim_space s.grpc_listen_address == trim_space s.listen_address)
        grpc_address_same
    fail_if (Int.le s.max_request_bytes (pos 0)) max_request_bytes_positive

  unfoldable pub validate_runtime : RuntimeConfig → Checked ServeError
  validate_runtime r = do
    fail_if
        (not (mode_of r == publication_mode_windowed)
          && not (mode_of r == publication_mode_on_shutdown))
        publication_mode_unknown
    fail_if (mode_of r == publication_mode_windowed && Int.le r.flush_interval (pos 0))
        flush_interval_positive
    fail_if (mode_of r == publication_mode_windowed && Int.le r.window_size (pos 0))
        window_size_positive
    fail_if (mode_of r == publication_mode_on_shutdown && r.reconciliation.enabled)
        reconciliation_on_shutdown
    fail_if (Int.le r.max_in_memory_spans (pos 0)) max_in_memory_spans_positive
    fail_if (not (known_policy r.late_span_policy)) late_span_policy_unknown

  -- `ServeConfig.Validate`
  unfoldable pub validate_serve : ServeConfig → Checked ServeError
  validate_serve c = do
    validate_server c.server
    validate_runtime c.runtime
    validate_reconciliation c.runtime.reconciliation
    fail_if (is_blank (trim_space c.sink.directory)) directory_empty
