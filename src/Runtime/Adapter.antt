-- ===== src/Runtime/Adapter.antt =====
-- internal/runtime: `buildRuntimeReconciliationConfig` of reconciliation_adapter.go and the settings
-- that `NewService` of service.go makes an engine with. The resolved paths are an argument.
pub mod Usable
pub mod Starts
use bering.Prelude.{String, ◌<>◌, ◌||◌, [], ◌∷◌, if◌then◌else◌}
use bering.Go.Int
use bering.Go.Int.{ℤ, pos}
use bering.Go.Float
use bering.Go.Float.{Float, FloatOps}
use bering.Go.Text.Escape.{query_escape}
use bering.Go.Text.{trim_space, is_blank}
use bering.Reconciliation.Config.{Config, default_config, with_defaults}
use bering.Config.{ServeConfig}
use bering.Runtime.Types.{EngineConfig}

-- `Duration.Seconds`, `math.Exp` and the constant `-math.Ln2`.
pub record MathOps : Type 0 where
  pub seconds : ℤ → Float
  pub exp : Float → Float
  pub minus_ln2 : Float

-- What `resolveReconciliationPaths` returns.
pub record Paths : Type 0 where
  pub state : String
  pub report : String
  pub summary : String
  pub raw_window : String
  pub stable_core : String

module _ (fl : FloatOps) (math : MathOps) where
  -- The length of one duration in another.
  windows_in : ℤ → ℤ → Float
  windows_in d size = fl.div (math.seconds d) (math.seconds size)

  alpha_of : Float → Float
  alpha_of windows = fl.sub (fl.decimal 1 0) (math.exp (fl.div math.minus_ln2 windows))

  unfoldable pub half_life_to_alpha : ℤ → ℤ → Float → Float
  unfolding windows_in alpha_of
  half_life_to_alpha half_life window_size fallback =
      let windows = windows_in half_life window_size in
      let alpha = alpha_of windows in
      if Int.le half_life (pos 0) || Int.le window_size (pos 0)
      then fallback
      else if Float.le fl windows (fl.decimal 0 0)
      then fallback
      else if Float.le fl alpha (fl.decimal 0 0) || fl.lt (fl.decimal 1 0) alpha
      then fallback
      else alpha

  unfoldable pub duration_to_windows : ℤ → ℤ → ℤ → ℤ
  unfolding windows_in
  duration_to_windows interval window_size fallback =
      let windows = fl.to_int (fl.round (windows_in interval window_size)) in
      if Int.le interval (pos 0) || Int.le window_size (pos 0)
      then fallback
      else if Int.lt windows (pos 1)
      then pos 1
      else windows

  -- The configuration before `WithDefaults`.
  unfoldable pub adapted : String → ServeConfig → Config
  unfolding half_life_to_alpha duration_to_windows
  adapted state_path cfg =
      let rcfg = cfg.runtime.reconciliation in
      let out = default_config fl in
      record out {
        enabled = rcfg.enabled;
        state_path = state_path;
        soft_gap_multiplier = rcfg.soft_gap_multiplier;
        hard_gap_multiplier = rcfg.hard_gap_multiplier;
        min_soft_windows = rcfg.minimum_soft_windows;
        min_hard_windows = rcfg.minimum_hard_windows;
        minimum_opportunity_observations = rcfg.minimum_opportunity_windows;
        telemetry_freeze_threshold = rcfg.telemetry_health_freeze_threshold;
        gap_ema_alpha =
            half_life_to_alpha rcfg.decay_half_life cfg.runtime.window_size out.gap_ema_alpha;
        stable_core_existence_threshold = rcfg.stable_core_min_belief;
        stable_core_activity_threshold = rcfg.stable_core_min_activity;
        guardrail_union_existence_threshold = rcfg.guardrail_union_min_belief;
        retirement_existence_threshold = rcfg.retirement_min_belief;
        retired_ttl = rcfg.retired_ttl;
        max_retired_overall = rcfg.max_retained_retired_entities;
        compaction_cadence =
            duration_to_windows rcfg.compaction_interval cfg.runtime.window_size
              out.compaction_cadence;
      }

  unfoldable pub build_runtime_reconciliation_config : String → ServeConfig → Config
  unfolding adapted
  build_runtime_reconciliation_config state_path cfg = with_defaults fl (adapted state_path cfg)

  unfoldable pub build_serve_source_ref : String → String
  build_serve_source_ref listen_addr =
      if is_blank (trim_space listen_addr)
      then "bering://serve"
      else "bering://serve?listen=" <> query_escape (trim_space listen_addr)

  unfoldable pub engine_config : Paths → ServeConfig → EngineConfig
  unfolding build_serve_source_ref build_runtime_reconciliation_config
  engine_config paths cfg =
      let ref = build_serve_source_ref cfg.server.listen_address in
      record {
        publication_mode = cfg.runtime.publication_mode;
        window_size = cfg.runtime.window_size;
        max_in_memory_spans = cfg.runtime.max_in_memory_spans;
        late_span_policy = cfg.runtime.late_span_policy;
        source_ref = ref;
        sources =
            record { type = "traces"; connector = "otlp_http"; ref = ref; observations = pos 0 }
            ∷ [];
        reconciliation_config = build_runtime_reconciliation_config paths.state cfg;
        reconciliation_report_path = paths.report;
        reconciliation_summary_path = paths.summary;
        raw_window_path = paths.raw_window;
        stable_core_path = paths.stable_core;
      }
