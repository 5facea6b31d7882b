-- ===== src/Discovery/Scan.antt =====
-- internal/discovery/discovery.go: `Discover` from the spans to the services, edges and endpoints, with
-- their records, before the observations, the provenance and the overlays are added. The index of the
-- spans is an argument.
pub mod Linking
pub mod Integrity
pub mod Support
use bering.Prelude.{
  String, Bool, ◌&&◌, not, Option, none, some, List, [], ◌∷◌, map, ◌==◌, if◌then◌else◌,
}
use bering.Go.Int
use bering.Go.Int.{ℤ, pos}
use bering.Go.Float.{Float, FloatOps}
use bering.Go.Text.{trim_space, is_blank}
use bering.Go.Time.{Rfc3339}
use bering.Go.Map.{Map, lookup, put, has}
use bering.Go.Sort.{sort}
use bering.Model.Types.{Service, Edge, Endpoint, edge_kind_sync}
use bering.Model.Normalize.Sort.{service_less, edge_less, endpoint_less}
use bering.Model.Normalize.Texts.{edge_id_with_identity}
use bering.Snapshot.Types.{SourceSummary, Provenance, ServiceRecord, EdgeRecord, EndpointRecord}
use bering.Snapshot.Normalize.{service_record_less, edge_record_less, endpoint_record_less}
use bering.Runtime.Types.{Span}
use bering.Discovery.Attributes.{Texts, edge_kind, parent_span, trace_span_key}
use bering.Discovery.Clone.{clone_edge_identity}
use bering.Discovery.Infer.{edge_identity, infer_endpoint}
use bering.Discovery.Summary.{service_support, edge_support, endpoint_support, observed_summary}
use bering.Discovery.Accumulate.{
  ServiceAccumulator, EdgeAccumulator, EndpointAccumulator, update_service_accumulator,
  update_edge_accumulator, update_endpoint_accumulator, format_optional_time, note_trace,
}

-- What the second loop counts.
pub record Links : Type 0 where
  pub edges : Map EdgeAccumulator
  pub endpoints : Map EndpointAccumulator
  pub linked : ℤ

abbrev pub nothing_linked : Links
nothing_linked = record { edges = []; endpoints = []; linked = pos 0 }

module _ {Value : Type 0} (texts : Texts Value) (fl : FloatOps) (runtime_mode : Bool) where
  -- The body of the first loop, of a span with a service.
  unfoldable pub count_service : Map ServiceAccumulator → Span Value → Map ServiceAccumulator
  count_service stats span =
      let service = trim_space span.service in
      put service (update_service_accumulator texts (lookup service stats) span runtime_mode) stats

  unfoldable pub count_services :
      List (Span Value) → Map ServiceAccumulator → Map ServiceAccumulator
  count_services [] stats = stats
  count_services (span ∷ rest) stats =
      count_services rest
        (if is_blank (trim_space span.service) then stats else count_service stats span)

  -- The traces of the spans with a service.
  unfoldable pub note_traces : List (Span Value) → List String → List String
  note_traces [] set = set
  note_traces (span ∷ rest) set =
      note_traces rest
        (if is_blank (trim_space span.service) then set else note_trace texts span set)

  -- An edge from the parent of a span to the span.
  unfoldable pub count_edge : Span Value → Span Value → Links → Links
  count_edge parent span found =
      let (kind, evidence) = edge_kind texts parent span in
      let blocking = kind == edge_kind_sync in
      let identity = edge_identity texts parent span in
      let key = edge_id_with_identity parent.service span.service kind blocking identity in
      record found {
        edges =
            put key
              (update_edge_accumulator texts fl (lookup key found.edges) key parent span kind
                blocking identity evidence runtime_mode)
              found.edges;
        linked = Int.add found.linked (pos 1);
      }

  unfoldable pub link : Map (Span Value) → Span Value → Option (Span Value) → Links → Links
  link index span none found = found
  link index span (some parent) found =
      let key = trace_span_key texts span.trace_id span.span_id span.source_domain in
      if has key index
        && not (is_blank (trim_space parent.service))
        && not (parent.service == span.service)
      then count_edge parent span found
      else found

  unfoldable pub enter : Span Value → Option Endpoint → Links → Links
  enter span none found = found
  enter span (some endpoint) found = record found {
    endpoints =
        put endpoint.id
          (update_endpoint_accumulator texts (lookup endpoint.id found.endpoints) endpoint span
            runtime_mode)
          found.endpoints;
  }

  -- The body of the second loop.
  unfoldable pub link_span : Map (Span Value) → Links → Span Value → Links
  link_span index found span =
      let parent = parent_span texts span index in
      if is_blank (trim_space span.service)
      then found
      else enter span (infer_endpoint texts span parent) (link index span parent found)

  unfoldable pub link_spans : Map (Span Value) → List (Span Value) → Links → Links
  link_spans index [] found = found
  link_spans index (span ∷ rest) found = link_spans index rest (link_span index found span)

  unfoldable pub service_of : String × ServiceAccumulator → Service
  service_of (id, stat) = record { id = id; name = id; replicas = pos 1; metadata = none }

  unfoldable pub services_of : Map ServiceAccumulator → List Service
  unfolding service_of
  services_of stats = sort service_less (map service_of stats)

  unfoldable pub edge_of : String × EdgeAccumulator → Edge
  unfolding observed_summary
  edge_of (key, stat) = record stat.edge { observed = observed_summary fl stat }

  unfoldable pub edges_of : Map EdgeAccumulator → List Edge
  unfolding edge_of
  edges_of stats = sort edge_less (map edge_of stats)

  unfoldable pub endpoint_at : String × EndpointAccumulator → Endpoint
  endpoint_at (id, stat) = stat.endpoint

  unfoldable pub endpoints_of : Map EndpointAccumulator → List Endpoint
  unfolding endpoint_at
  endpoints_of stats = sort endpoint_less (map endpoint_at stats)

  module _ (clock : Rfc3339) (provenance : List Provenance) where
    unfoldable pub service_record_of : String × ServiceAccumulator → ServiceRecord
    service_record_of (id, stat) = record {
      id = id;
      name = id;
      replicas = pos 1;
      support = service_support stat;
      first_seen = format_optional_time clock stat.seen.first_seen runtime_mode;
      last_seen = format_optional_time clock stat.seen.last_seen runtime_mode;
      provenance = provenance;
      metadata = none;
    }

    unfoldable pub edge_record_of : String × EdgeAccumulator → EdgeRecord
    edge_record_of (key, stat) = record {
      id = stat.id;
      from = stat.edge.from;
      to = stat.edge.to;
      kind = stat.edge.kind;
      blocking = stat.edge.blocking;
      identity = clone_edge_identity stat.edge.identity;
      support = edge_support stat;
      first_seen = format_optional_time clock stat.seen.first_seen runtime_mode;
      last_seen = format_optional_time clock stat.seen.last_seen runtime_mode;
      provenance = provenance;
      metadata = none;
      resilience = none;
      observed = observed_summary fl stat;
      policy_scope = none;
    }

    unfoldable pub endpoint_record_of : String × EndpointAccumulator → EndpointRecord
    endpoint_record_of (id, stat) = record {
      id = stat.endpoint.id;
      entry_service = stat.endpoint.entry_service;
      method = stat.endpoint.method;
      path = stat.endpoint.path;
      support = endpoint_support stat;
      first_seen = format_optional_time clock stat.seen.first_seen runtime_mode;
      last_seen = format_optional_time clock stat.seen.last_seen runtime_mode;
      provenance = provenance;
      metadata = none;
    }

    unfoldable pub service_records_of : Map ServiceAccumulator → List ServiceRecord
    unfolding service_record_of
    service_records_of stats = sort service_record_less (map service_record_of stats)

    unfoldable pub edge_records_of : Map EdgeAccumulator → List EdgeRecord
    unfolding edge_record_of
    edge_records_of stats = sort edge_record_less (map edge_record_of stats)

    unfoldable pub endpoint_records_of : Map EndpointAccumulator → List EndpointRecord
    unfolding endpoint_record_of
    endpoint_records_of stats = sort endpoint_record_less (map endpoint_record_of stats)

unfoldable pub infer_connector : List SourceSummary → String
infer_connector [] = "trace_file"
infer_connector (first ∷ rest) = trim_space first.connector

-- The provenance of a record that spans show.
unfoldable pub trace_provenance : List SourceSummary → String → List Provenance
unfolding infer_connector
trace_provenance sources source_ref =
    record {
      type = "traces";
      connector = infer_connector sources;
      name = "";
      ref = source_ref;
      precedence = pos 0;
    }
    ∷ []

module _ (fl : FloatOps) where
  raised : Bool → Float → Float → Float
  raised b score bonus = if b then fl.add score bonus else score

  -- `math.Min(0.15, linked / total * 0.15)`
  linked_bonus : ℤ → ℤ → Float
  linked_bonus total linked =
      let share = fl.mul (fl.div (fl.of_int linked) (fl.of_int total)) (fl.decimal 15 2) in
      if fl.lt share (fl.decimal 15 2) then share else fl.decimal 15 2

  unfoldable pub calculate_confidence : ℤ → ℤ → ℤ → ℤ → ℤ → Float
  unfolding raised linked_bonus
  calculate_confidence total services edges endpoints linked =
      let a = raised (Int.lt (pos 1) services) (fl.decimal 35 2) (fl.decimal 2 1) in
      let b = raised (Int.lt (pos 0) edges) a (fl.decimal 15 2) in
      let c = raised (Int.lt (pos 0) endpoints) b (fl.decimal 15 2) in
      let score =
        raised (Int.lt (pos 0) total && Int.lt (pos 0) linked) c (linked_bonus total linked) in
      let capped = if fl.lt (fl.decimal 1 0) score then fl.decimal 1 0 else score in
      fl.div (fl.round (fl.mul capped (fl.decimal 100 0))) (fl.decimal 100 0)
