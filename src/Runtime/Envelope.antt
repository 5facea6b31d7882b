-- ===== src/Runtime/Envelope.antt =====
-- internal/runtime/engine.go: the envelope of a window, `buildSnapshotEnvelope`,
-- `buildProjectionSnapshot`, `carryForwardObservationTimes` and `currentSources`.
pub mod Counted
pub mod Seen
use bering.Prelude.{
  String, ◌<>◌, Bool, not, Option, none, some, List, [], ◌∷◌, map, length, ◌==◌, if◌then◌else◌,
}
use mathlib.Core.Option
use bering.Go.Int.{pos}
use bering.Go.Text.{trim_space}
use bering.Go.Text.Order.{less}
use bering.Go.Time.{Time, Rfc3339, before}
use bering.Go.Map.{Map, lookup}
use bering.Go.Sort.{sort}
use bering.Snapshot.Types.{
  SourceSummary, IngestSummary, ServiceRecord, EdgeRecord, EndpointRecord, Envelope, DiffSummary,
}
use bering.Snapshot.Normalize.{sort_deterministic}
use bering.Snapshot.Diff.{service_map, edge_map, endpoint_map, compute_diff}
use bering.Discovery.Types.{source_type_bering}
use bering.Discovery.Types as Discovery
use bering.Reconciliation.Types.{Projection}
use bering.Runtime.Types.{WindowState, EngineConfig}
use bering.Runtime.Session.{Host}

-- The zero value, which is in the field until the diff is computed.
abbrev no_diff : DiffSummary
no_diff = record {
  added_services = pos 0;
  removed_services = pos 0;
  changed_services = pos 0;
  added_edges = pos 0;
  removed_edges = pos 0;
  changed_edges = pos 0;
  added_endpoints = pos 0;
  removed_endpoints = pos 0;
  changed_endpoints = pos 0;
}

source_summary_less : SourceSummary → SourceSummary → Bool
source_summary_less left right =
    if not (left.type == right.type)
    then less left.type right.type
    else if not (left.connector == right.connector)
    then less left.connector right.connector
    else less left.ref right.ref

sorted_sources : Map SourceSummary → List SourceSummary → List SourceSummary
unfolding source_summary_less
sorted_sources [] fallback = fallback
sorted_sources (first ∷ rest) fallback = sort source_summary_less (map (λ e. e.1) (first ∷ rest))

module _ (clock : Rfc3339) where
  unfoldable pub parse_seen_time : String → Option Time
  parse_seen_time value = clock.parse (trim_space value)

  unfoldable pub first_seen_of : Option Time → Option Time → String
  first_seen_of none none = ""
  first_seen_of (some p) none = clock.format p
  first_seen_of none (some c) = clock.format c
  first_seen_of (some p) (some c) = if before p c then clock.format p else clock.format c

  unfoldable pub merge_first_seen : String → String → String
  unfolding parse_seen_time first_seen_of
  merge_first_seen previous current =
      first_seen_of (parse_seen_time previous) (parse_seen_time current)

  unfoldable pub last_seen_of : Option Time → Option Time → String
  last_seen_of none none = ""
  last_seen_of (some p) none = clock.format p
  last_seen_of none (some c) = clock.format c
  last_seen_of (some p) (some c) = if before c p then clock.format p else clock.format c

  unfoldable pub merge_last_seen : String → String → String
  unfolding parse_seen_time last_seen_of
  merge_last_seen previous current =
      last_seen_of (parse_seen_time previous) (parse_seen_time current)

  -- The record with the times of the one that the previous envelope has under its name.
  service_times : Option ServiceRecord → ServiceRecord → ServiceRecord
  service_times none item = item
  service_times (some prev) item = record item {
    first_seen = merge_first_seen prev.first_seen item.first_seen;
    last_seen = merge_last_seen prev.last_seen item.last_seen;
  }

  edge_times : Option EdgeRecord → EdgeRecord → EdgeRecord
  edge_times none item = item
  edge_times (some prev) item = record item {
    first_seen = merge_first_seen prev.first_seen item.first_seen;
    last_seen = merge_last_seen prev.last_seen item.last_seen;
  }

  endpoint_times : Option EndpointRecord → EndpointRecord → EndpointRecord
  endpoint_times none item = item
  endpoint_times (some prev) item = record item {
    first_seen = merge_first_seen prev.first_seen item.first_seen;
    last_seen = merge_last_seen prev.last_seen item.last_seen;
  }

  unfoldable pub carry_forward_observation_times : Option Envelope → Envelope → Envelope
  unfolding service_times edge_times endpoint_times
  carry_forward_observation_times none current = current
  carry_forward_observation_times (some previous) current =
      let services = service_map previous.discovery.services in
      let edges = edge_map previous.discovery.edges in
      let endpoints = endpoint_map previous.discovery.endpoints in
      record current {
        discovery = record current.discovery {
          services =
              map (λ item. service_times (lookup item.id services) item) current.discovery.services;
          edges = map (λ item. edge_times (lookup item.id edges) item) current.discovery.edges;
          endpoints =
              map (λ item. endpoint_times (lookup item.id endpoints) item)
                current.discovery.endpoints;
        };
      }

module _ {Value : Type 0} where
  unfoldable pub current_sources : WindowState Value → List SourceSummary → List SourceSummary
  unfolding sorted_sources
  current_sources current fallback = sorted_sources current.sources fallback

  unfoldable pub ingest_of : WindowState Value → IngestSummary
  ingest_of current = record {
    spans = pos (length current.spans);
    traces = pos (length current.traces);
    dropped_spans = current.dropped;
    late_spans = current.late;
  }

  module _ (host : Host Value) where
    -- `snapshot.BuildSnapshotID`
    unfoldable pub build_snapshot_id : String → String → String → String
    build_snapshot_id window_start window_end topology_version =
        "snap-"
        <> host.short_digest (
            trim_space window_start
            <> ("|" <> (trim_space window_end <> ("|" <> trim_space topology_version))))

    -- The end of both builders.
    unfoldable pub compare_and_sort : Option Envelope → Envelope → Envelope
    compare_and_sort previous env =
        sort_deterministic host.float (record env { diff = compute_diff host.equal previous env })

    -- The literal of `buildSnapshotEnvelope`.
    unfoldable pub envelope_of :
        EngineConfig → WindowState Value → Discovery.Result → Time → String → Envelope
    unfolding build_snapshot_id ingest_of
    envelope_of cfg current result started topology_version =
        let window_start = host.external.clock.format current.start in
        let window_end = host.external.clock.format current.end in
        record {
          snapshot_id = build_snapshot_id window_start window_end topology_version;
          topology_version = topology_version;
          window_start = window_start;
          window_end = window_end;
          ingest = ingest_of current;
          counts = record {
            services = pos (length result.model.services);
            edges = pos (length result.model.edges);
            endpoints = pos (length result.model.endpoints);
          };
          coverage = result.coverage;
          sources = result.sources;
          diff = no_diff;
          discovery = result.discovery;
          model = result.model;
          metadata = record {
            source_type = source_type_bering;
            source_ref = cfg.source_ref;
            emitted_at = host.external.clock.format started;
            confidence = result.coverage.confidence;
            schema = host.schema;
          };
        }

    unfoldable pub build_snapshot_envelope :
        EngineConfig
        → WindowState Value
        → Discovery.Result
        → Option Envelope
        → Time
        → Option Envelope
    unfolding envelope_of carry_forward_observation_times compare_and_sort
    build_snapshot_envelope cfg current result previous started =
        Option.map
          (λ topology_version. compare_and_sort previous (
            carry_forward_observation_times host.external.clock previous
              (envelope_of cfg current result started topology_version)))
          (host.topology_digest result.model)

    unfoldable pub build_projection_snapshot :
        EngineConfig → WindowState Value → Projection → Option Envelope → Time → Envelope
    unfolding build_snapshot_id ingest_of compare_and_sort
    build_projection_snapshot cfg current projection previous started =
        let window_start = host.external.clock.format current.start in
        let window_end = host.external.clock.format current.end in
        compare_and_sort previous (record {
          snapshot_id = build_snapshot_id window_start window_end projection.topology_version;
          topology_version = projection.topology_version;
          window_start = window_start;
          window_end = window_end;
          ingest = ingest_of current;
          counts = projection.counts;
          coverage = projection.coverage;
          sources = projection.sources;
          diff = no_diff;
          discovery = projection.discovery;
          model = projection.model;
          metadata = record {
            source_type = source_type_bering;
            source_ref = cfg.source_ref;
            emitted_at = host.external.clock.format started;
            confidence = projection.model.metadata.confidence;
            schema = host.schema;
          };
        })
