-- ===== src/Reconciliation/Projection.antt =====
-- internal/reconciliation: `buildProjection` and `bumpProjectionVersion` of engine.go,
-- `buildRawProjection` and `countModel` of types.go, `topologyFingerprint` of io.go.
pub mod Integrity
use bering.Prelude.{
  String, Bool, true, not, Option, none, some, List, [], ◌∷◌, map, length, is_empty, ◌==◌,
  if◌then◌else◌, Result, ok, err, ◌>>=◌, ◌>>◌, Checked,
}
use bering.Go.Int
use bering.Go.Int.{ℤ, pos}
use bering.Go.Float.{FloatOps}
use bering.Go.Text.Order.{less}
use bering.Go.Time.{Rfc3339}
use bering.Go.Sort.{sort}
use bering.Model.Types.{Service, Edge, Endpoint, ResilienceModel, Metadata, SchemaRef}
use bering.Model.Validate.{validate_semantic}
use bering.Model.Validate.Errors
use bering.Model.Normalize.Sort.{sort_deterministic, service_less, endpoint_less}
use bering.Snapshot.Types.{Counts, DiffSummary, SourceSummary}
use bering.Discovery.Types.{source_type_bering}
use bering.Discovery.Types as Discovery
use bering.Reconciliation.Types.{
  ProjectionName, raw_window, stable_core, guardrail_union, Observation, Projection, EntityState,
  PersistedState,
}
use bering.Reconciliation.Index.{edge_identity}
use bering.Reconciliation.Selection.{select_services, select_edges, select_endpoints}

pub record TopologyShape : Type 0 where
  pub services : List Service
  pub edges : List Edge
  pub endpoints : List Endpoint

-- What the reconciler calls outside its package: the printing and parsing of moments, the schema
-- constants, and the SHA-256 of the canonical JSON of a shape, `none` where the encoder fails.
pub record External : Type 0 where
  pub clock : Rfc3339
  pub schema : SchemaRef
  pub digest : TopologyShape → Option String

pub data ProcessError : Type 0 where
  window_unset window_order : ProcessError
  model_invalid : Errors.Error → ProcessError
  fingerprint_failed state_not_saved : ProcessError

count_model : ResilienceModel → Counts
count_model m = record {
  services = pos (length m.services);
  edges = pos (length m.edges);
  endpoints = pos (length m.endpoints);
}

added_only : Discovery.Result → DiffSummary
added_only r = record {
  added_services = pos (length r.discovery.services);
  removed_services = pos 0;
  changed_services = pos 0;
  added_edges = pos (length r.discovery.edges);
  removed_edges = pos 0;
  changed_edges = pos 0;
  added_endpoints = pos (length r.discovery.endpoints);
  removed_endpoints = pos 0;
  changed_endpoints = pos 0;
}

first_ref : List SourceSummary → String
first_ref [] = ""
first_ref (s ∷ _) = s.ref

abbrev first_nonempty : String → String → String
first_nonempty a b = if a == "" then b else a

module _ (ext : External) where
  unfoldable pub topology_fingerprint : ResilienceModel → Result ProcessError String
  topology_fingerprint m =
      let shape : TopologyShape = record {
        services = sort service_less m.services;
        edges = sort (λ a b. less (edge_identity a) (edge_identity b)) m.edges;
        endpoints = sort endpoint_less m.endpoints;
      } in
      elim (ext.digest shape) [ none ↦ err fingerprint_failed | some hash ↦ ok hash ]

  -- The metadata of a projection when the window's model has none.
  projection_metadata : Observation → Metadata
  unfolding first_ref
  projection_metadata obs =
      let given = obs.result.model.metadata in
      if given.source_type == ""
      then record {
        source_type = source_type_bering;
        source_ref =
            first_nonempty (first_nonempty given.source_ref (first_ref obs.result.sources))
              "bering://serve";
        discovered_at = ext.clock.format obs.window_end;
        confidence = obs.result.coverage.confidence;
        schema = ext.schema;
      }
      else given

  -- `previousHash` of `buildProjection`.
  unfoldable pub previous_hash : PersistedState → ProjectionName → String
  previous_hash state stable_core = state.stable_core_topology_hash
  previous_hash state guardrail_union = state.guardrail_union_topology_hash
  previous_hash state raw_window = ""

  module _ (fl : FloatOps) where
    unfoldable pub projected :
        PersistedState → Observation → (EntityState → Bool) → Discovery.Result
    unfolding projection_metadata
    projected state obs include =
        let services = select_services include state.services in
        let service_set = map (λ e. e.0) services in
        let edges = select_edges include service_set state.edges in
        let endpoints = select_endpoints include service_set state.endpoints in
        record obs.result {
          model = sort_deterministic fl (record {
            services = map (λ e. e.1) services;
            edges = map (λ e. e.0) edges;
            endpoints = map (λ e. e.0) endpoints;
            metadata = projection_metadata obs;
          });
          discovery = record obs.result.discovery {
            services = map (λ e. e.2) services;
            edges = map (λ e. e.1) edges;
            endpoints = map (λ e. e.1) endpoints;
          };
        }

    unfoldable pub build_projection :
        PersistedState
        → ProjectionName
        → Observation
        → (EntityState → Bool)
        → Result ProcessError Projection
    unfolding projected count_model added_only previous_hash topology_fingerprint
    build_projection state name obs include =
        let r = projected state obs include in
        topology_fingerprint r.model >>= λ hash. ok (record {
          name = name;
          model = r.model;
          discovery = r.discovery;
          coverage = obs.result.coverage;
          sources = obs.result.sources;
          counts = count_model r.model;
          topology_version = hash;
          changed = not (hash == previous_hash state name);
          diff = added_only r;
        })

    unfoldable pub checked_model : ResilienceModel → Checked ProcessError
    checked_model m =
        if is_empty m.services then ok tt else elim (validate_semantic fl ext.clock m) [
          | ok _ ↦ ok tt
          | err e ↦ err (model_invalid e)
        ]

    unfoldable pub build_raw_projection : Observation → Result ProcessError Projection
    unfolding checked_model topology_fingerprint count_model added_only
    build_raw_projection obs = do
      checked_model obs.result.model
      hash ← topology_fingerprint obs.result.model
      ok (record {
        name = raw_window;
        model = obs.result.model;
        discovery = obs.result.discovery;
        coverage = obs.result.coverage;
        sources = obs.result.sources;
        counts = count_model obs.result.model;
        topology_version = hash;
        changed = true;
        diff = added_only obs.result;
      })

unfoldable pub bump_if : Bool → ℤ → ℤ
bump_if changed version = if changed then Int.add version (pos 1) else version

unfoldable pub bump_projection_version :
    ProjectionName → Projection → PersistedState → PersistedState
unfolding bump_if
bump_projection_version stable_core p state = record state {
  versions = record state.versions {
    stable_core_version = bump_if p.changed state.versions.stable_core_version;
  };
  stable_core_topology_hash = p.topology_version;
}
bump_projection_version guardrail_union p state = record state {
  versions = record state.versions {
    guardrail_union_version = bump_if p.changed state.versions.guardrail_union_version;
  };
  guardrail_union_topology_hash = p.topology_version;
}
bump_projection_version raw_window p state = state
