-- ===== src/Reconciliation/Window.antt =====
-- internal/reconciliation/engine.go: what `Process` does to the retained entities in one window, up
-- to the projections.
use bering.Prelude.{
  String, Bool, ◌&&◌, not, Option, none, some, List, [], ◌∷◌, ◌++◌, ◌==◌, if◌then◌else◌,
}
use bering.Go.Int
use bering.Go.Int.{ℤ, pos}
use bering.Go.Float.{FloatOps}
use bering.Go.Text.Order.{less}
use bering.Go.Time.{Time, before}
use bering.Go.Map.{Map, put, has}
use bering.Go.Sort.{sort}
use bering.Reconciliation.Types.{
  Kind, service, edge, endpoint, Observation, TelemetryHealth, EntityStateSummary, Transition,
  EntitySnapshot, EntityState, PersistedState, default_format_version,
}
use bering.Reconciliation.Config.{Config}
use bering.Reconciliation.Lifecycle.Observe.{ensure_entity_state, observe_entity}
use bering.Reconciliation.Lifecycle.Advance.{advance_lifecycle, gap_thresholds}
use bering.Reconciliation.Health.{evaluate_telemetry_health}
use bering.Reconciliation.Index.{
  ObservationIndex, build_observation_index, service_opportunity, edge_opportunity,
  endpoint_opportunity,
}
use bering.Reconciliation.Projection.{External}

-- `ensureStateMaps`: a nil map is an empty one here.
unfoldable pub ensure_state_maps : PersistedState → PersistedState
ensure_state_maps state =
    if Int.equal state.format_version (pos 0)
    then record state { format_version = default_format_version }
    else state

unfoldable pub next_observation_version : PersistedState → PersistedState
next_observation_version state = record state {
  versions = record state.versions {
    observation_version = Int.add state.versions.observation_version (pos 1);
  };
}

kind_text : Kind → String
kind_text service = "service"
kind_text edge = "edge"
kind_text endpoint = "endpoint"

-- The order of `sortEntitySummaries`.
summary_less : EntityStateSummary → EntityStateSummary → Bool
unfolding kind_text
summary_less a b =
    if not (kind_text a.kind == kind_text b.kind)
    then less (kind_text a.kind) (kind_text b.kind)
    else less a.id b.id

-- The entities of a bucket after the window, the transitions and the summaries.
pub record Swept : Type 0 where
  pub bucket : Map EntityState
  pub transitions : List Transition
  pub summaries : List EntityStateSummary

module _ (fl : FloatOps) (cfg : Config) (ext : External) (now : Time) where
  -- `for id, snapshot := range index… { observeEntity(ensureEntityState(…)) }`
  unfoldable pub observe_all : Kind → ℤ → Map EntitySnapshot → Map EntityState → Map EntityState
  observe_all kind version [] bucket = bucket
  observe_all kind version ((id, snapshot) ∷ rest) bucket = observe_all kind version rest (
      put id
        (observe_entity fl cfg ext.clock (ensure_entity_state fl bucket kind id) snapshot version
          now)
        bucket)

  unfoldable pub summarize : Kind → String → EntityState → ℤ → Bool → EntityStateSummary
  summarize kind id s opportunity observed =
      let thresholds = gap_thresholds fl cfg s in
      let qualified = Int.le cfg.minimum_opportunity_observations opportunity in
      record {
        kind = kind;
        id = id;
        lifecycle = s.lifecycle;
        existence_confidence = s.existence_confidence;
        activity_confidence = s.activity_confidence;
        observed_windows = s.observed_windows;
        opportunity_windows = s.opportunity_windows;
        miss_streak = s.miss_streak;
        last_seen_window = s.last_seen_window;
        gap_ema = s.gap_ema;
        source_strength = s.source_strength;
        observed_current = observed;
        opportunity_current = qualified;
        qualified_miss = not observed && qualified;
        soft_threshold = thresholds.0;
        hard_threshold = thresholds.1;
        reason = s.reason;
      }

  abbrev append_transition : Option Transition → List Transition → List Transition
  append_transition none rest = rest
  append_transition (some t) rest = t ∷ rest

  -- The loop over one bucket.
  unfoldable pub advance_all :
      Kind → ℤ → (String → ℤ) → (String → Bool) → TelemetryHealth → Map EntityState → Swept
  unfolding summarize
  advance_all kind version opportunity observed health [] = record {
    bucket = [];
    transitions = [];
    summaries = [];
  }
  advance_all kind version opportunity observed health ((id, s) ∷ rest) =
      let (s', transition) =
        advance_lifecycle fl cfg ext.clock s version now (opportunity id) (observed id) health in
      let others = advance_all kind version opportunity observed health rest in
      record {
        bucket = (id, s') ∷ others.bucket;
        transitions = append_transition transition others.transitions;
        summaries = summarize kind id s' (opportunity id) (observed id) ∷ others.summaries;
      }

  unfoldable pub observe_window : ℤ → ObservationIndex → PersistedState → PersistedState
  unfolding observe_all
  observe_window version index state = record state {
    services = observe_all service version index.services state.services;
    edges = observe_all edge version index.edges state.edges;
    endpoints = observe_all endpoint version index.endpoints state.endpoints;
  }

  -- The three buckets at the end of the window, in the order of the loop.
  unfoldable pub sweep :
      ℤ
      → ObservationIndex
      → TelemetryHealth
      → PersistedState
      → PersistedState × List Transition × List EntityStateSummary
  unfolding advance_all
  sweep version index health state =
      let s =
        advance_all service version (service_opportunity state index) (λ id. has id index.services)
          health state.services in
      let e =
        advance_all edge version (edge_opportunity state index) (λ id. has id index.edges) health
          state.edges in
      let p =
        advance_all endpoint version (endpoint_opportunity state index)
          (λ id. has id index.endpoints) health state.endpoints in
      (
        record state { services = s.bucket; edges = e.bucket; endpoints = p.bucket },
        s.transitions ++ (e.transitions ++ p.transitions),
        s.summaries ++ (e.summaries ++ p.summaries),
      )

-- The state, health, transitions and summaries when the projections are built.
pub record Advanced : Type 0 where
  pub state : PersistedState
  pub health : TelemetryHealth
  pub transitions : List Transition
  pub summaries : List EntityStateSummary

module _ (fl : FloatOps) (ext : External) where
  -- `Process` from `ensureStateMaps` to the compaction, which is last.
  unfoldable pub advance_window : Config → PersistedState → Observation → Advanced
  unfolding observe_window sweep ensure_state_maps next_observation_version summary_less
  advance_window cfg before obs =
      let counted = next_observation_version (ensure_state_maps before) in
      let version = counted.versions.observation_version in
      let index = build_observation_index obs in
      let (health, ema) = evaluate_telemetry_health fl cfg counted.volume_ema obs.ingest in
      let observed =
        observe_window fl cfg ext obs.window_end version index
          (record counted { volume_ema = ema }) in
      let (swept, transitions, summaries) =
        sweep fl cfg ext obs.window_end version index health observed in
      record {
        state = swept;
        health = health;
        transitions = transitions;
        summaries = sort summary_less summaries;
      }
