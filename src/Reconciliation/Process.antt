-- ===== src/Reconciliation/Process.antt =====
-- internal/reconciliation/engine.go: `Process`, one observation window through the reconciler, and
-- `Observation.Validate` of types.go. The reconciler is returned on every path: what was changed
-- before an error stays changed.
pub mod Filing
pub mod Soundness
pub mod Versioning
use bering.Prelude.{
  String, Bool, true, false, ◌&&◌, ◌||◌, not, List, [], ◌∷◌, ◌==◌, if◌then◌else◌, Result, ok, err,
  ◌>>◌, Checked, fail_if,
}
use bering.Go.Int
use bering.Go.Int.{ℤ}
use bering.Go.Float
use bering.Go.Float.{FloatOps}
use bering.Go.Time.{is_zero, before}
use bering.Reconciliation.Types as Types
use bering.Reconciliation.Types.{
  active, retired, same_lifecycle, stable_core, guardrail_union, Observation, Projection,
  ProjectionSummary, EntityState, PersistedState, Report, default_format_version,
}
use bering.Reconciliation.Config.{Config}
use bering.Reconciliation.Projection.{
  External, ProcessError, window_unset, window_order, state_not_saved, build_projection,
  build_raw_projection, bump_projection_version,
}
use bering.Reconciliation.Compaction.{compact_if_due}
use bering.Reconciliation.Window.{Advanced, advance_window}

pub record Reconciler : Type 0 where
  pub cfg : Config
  pub state : PersistedState
  pub load_warnings : List String

-- `Observation.Validate`
unfoldable pub validate_observation : Observation → Checked ProcessError
validate_observation obs = do
  fail_if (is_zero obs.window_start || is_zero obs.window_end) window_unset
  fail_if (not (before obs.window_start obs.window_end)) window_order

module _ (fl : FloatOps) (cfg : Config) where
  -- The test of `stable_core`.
  unfoldable pub in_stable_core : EntityState → Bool
  in_stable_core s =
      same_lifecycle s.lifecycle active
      && Float.le fl cfg.stable_core_existence_threshold s.existence_confidence
      && Float.le fl cfg.stable_core_activity_threshold s.activity_confidence

  -- The test of `guardrail_union`.
  unfoldable pub in_guardrail_union : ℤ → EntityState → Bool
  in_guardrail_union version s =
      if same_lifecycle s.lifecycle retired
      then false
      else if Int.equal s.last_seen_window version
      then true
      else if Float.le fl (fl.decimal 9 1) s.source_strength
      then true
      else Float.le fl cfg.guardrail_union_existence_threshold s.existence_confidence

summarize_projection : Projection → ℤ → ProjectionSummary
summarize_projection p version = record {
  name = p.name;
  counts = p.counts;
  topology_version = p.topology_version;
  version = version;
  changed = p.changed;
  diff = p.diff;
}

-- `if err != nil { return err }`, with the reconciler as it stands.
abbrev or_error :
    Reconciler
    → Result ProcessError Projection
    → (Projection → Result ProcessError Types.Result × Reconciler)
    → Result ProcessError Types.Result × Reconciler
or_error r (err e) k = (err e, r)
or_error r (ok p) k = k p

module _ (fl : FloatOps) (ext : External) where
  -- `saveState(path, state)`: false where writing fails. An empty path saves nothing.
  module _ (save : String → PersistedState → Bool) where
    saved : String → PersistedState → Bool
    saved path state =
        if path == ""
        then true
        else save path (record state { format_version = default_format_version })

    finish :
        Observation
        → Advanced
        → Types.CompactionSummary
        → Projection
        → Projection
        → Projection
        → Reconciler
        → Result ProcessError Types.Result × Reconciler
    unfolding saved summarize_projection
    finish obs a compaction raw stable guardrail r =
        let state =
          bump_projection_version guardrail_union guardrail
            (bump_projection_version stable_core stable r.state) in
        let r' : Reconciler = record r { state = state; load_warnings = [] } in
        let report : Report = record {
          format_version = default_format_version;
          window_start = ext.clock.format obs.window_start;
          window_end = ext.clock.format obs.window_end;
          versions = state.versions;
          telemetry_health = a.health;
          transitions = a.transitions;
          projections =
              summarize_projection raw state.versions.observation_version
              ∷ summarize_projection stable state.versions.stable_core_version
              ∷ summarize_projection guardrail state.versions.guardrail_union_version
              ∷ [];
          entities = a.summaries;
          compaction = compaction;
          load_warnings = r.load_warnings;
        } in
        if saved r.cfg.state_path state
        then (
          ok (record {
            raw_window = raw;
            stable_core = stable;
            guardrail_union = guardrail;
            report = report;
          }),
          r',
        )
        else (err state_not_saved, r')

    -- The window after its checks.
    unfoldable pub process_checked :
        Reconciler → Observation → Projection → Result ProcessError Types.Result × Reconciler
    unfolding advance_window finish
    process_checked r obs raw =
        let a = advance_window fl ext r.cfg r.state obs in
        let (state, compaction) = compact_if_due ext.clock r.cfg obs.window_end a.state in
        let r' : Reconciler = record r { state = state } in
        or_error r' (build_projection ext fl state stable_core obs (in_stable_core fl r.cfg))
          λ stable.
            or_error r'
              (build_projection ext fl state guardrail_union obs
                (in_guardrail_union fl r.cfg a.state.versions.observation_version))
              λ guardrail. finish obs a compaction raw stable guardrail r'

    unfoldable pub process :
        Reconciler → Observation → Result ProcessError Types.Result × Reconciler
    unfolding validate_observation process_checked
    process r obs =
        or_error r (validate_observation obs >> build_raw_projection ext fl obs)
          λ raw. process_checked r obs raw
