-- ===== src/Discovery/Accumulate.antt =====
-- internal/discovery/discovery.go: what the discovery counts of a service, of an edge and of an
-- endpoint. The zero time is 0.
use bering.Prelude.{String, Bool, not, ◌||◌, Option, none, some, List, [], ◌∷◌, ◌++◌, if◌then◌else◌}
use bering.Go.Int
use bering.Go.Int.{ℤ, pos}
use bering.Go.Float.{Float, FloatOps}
use bering.Go.Text.{trim_space, is_blank}
use bering.Go.Time.{Time, Rfc3339, is_zero, before, since}
use bering.Go.Map.{contains}
use bering.Model.Types.{Edge, Endpoint, EdgeKind, EdgeIdentity}
use bering.Runtime.Types.{Span}
use bering.Runtime.Window.{event_time}
use bering.Discovery.Attributes.{Texts, trace_span_key}

-- The times at which something was seen, or zero.
pub record Seen : Type 0 where
  pub first_seen : Time
  pub last_seen : Time

unfoldable pub observe_time : Seen → Time → Bool → Seen
observe_time a ts runtime_mode = if not runtime_mode || is_zero ts then a else record {
  first_seen = if is_zero a.first_seen || before ts a.first_seen then ts else a.first_seen;
  last_seen = if is_zero a.last_seen || before a.last_seen ts then ts else a.last_seen;
}

unfoldable pub add_text : String → List String → List String
add_text text set = if contains set text then set else text ∷ set

pub record ServiceAccumulator : Type 0 where
  pub observations : ℤ
  pub trace_ids : List String
  pub seen : Seen

pub record EndpointAccumulator : Type 0 where
  pub endpoint : Endpoint
  pub observations : ℤ
  pub trace_ids : List String
  pub seen : Seen

pub record EdgeAccumulator : Type 0 where
  pub id : String
  pub edge : Edge
  pub observations : ℤ
  pub trace_ids : List String
  pub evidence : List String
  pub latency_ms : List Float
  pub seen : Seen

abbrev pub unseen : Seen
unseen = record { first_seen = 0; last_seen = 0 }

unfoldable pub format_optional_time : Rfc3339 → Time → Bool → String
format_optional_time clock ts include = if not include || is_zero ts then "" else clock.format ts

module _ {Value : Type 0} (texts : Texts Value) where
  -- `traceIDs[traceSpanKey(…)] = struct{}{}`
  unfoldable pub note_trace : Span Value → List String → List String
  unfolding add_text
  note_trace span set =
      if is_blank span.trace_id
      then set
      else add_text (trace_span_key texts span.trace_id "" span.source_domain) set

  unfoldable pub service_start : Option ServiceAccumulator → ServiceAccumulator
  service_start none = record { observations = pos 0; trace_ids = []; seen = unseen }
  service_start (some acc) = acc

  unfoldable pub update_service_accumulator :
      Option ServiceAccumulator → Span Value → Bool → ServiceAccumulator
  unfolding service_start note_trace observe_time
  update_service_accumulator given span runtime_mode =
      let acc = service_start given in
      record {
        observations = Int.add acc.observations (pos 1);
        trace_ids = note_trace span acc.trace_ids;
        seen = observe_time acc.seen (event_time span 0) runtime_mode;
      }

  unfoldable pub endpoint_start : Option EndpointAccumulator → Endpoint → EndpointAccumulator
  endpoint_start none endpoint = record {
    endpoint = endpoint;
    observations = pos 0;
    trace_ids = [];
    seen = unseen;
  }
  endpoint_start (some acc) endpoint = acc

  unfoldable pub update_endpoint_accumulator :
      Option EndpointAccumulator → Endpoint → Span Value → Bool → EndpointAccumulator
  unfolding endpoint_start note_trace observe_time
  update_endpoint_accumulator given endpoint span runtime_mode =
      let acc = endpoint_start given endpoint in
      record {
        endpoint = acc.endpoint;
        observations = Int.add acc.observations (pos 1);
        trace_ids = note_trace span acc.trace_ids;
        seen = observe_time acc.seen (event_time span 0) runtime_mode;
      }

  add_evidence : List String → List String → List String
  unfolding add_text
  add_evidence [] set = set
  add_evidence (item ∷ rest) set =
      add_evidence rest (if is_blank (trim_space item) then set else add_text item set)

  module _ (fl : FloatOps) where
    unfoldable pub span_duration_ms : Span Value → Option Float
    span_duration_ms span =
        if is_zero span.start_time || is_zero span.end_time || before span.end_time span.start_time
        then none
        else some (
            fl.fixed3
              (fl.div (fl.of_int (since span.end_time span.start_time)) (fl.decimal 1000000 0)))

    with_latency : Option Float → List Float → List Float
    with_latency none latencies = latencies
    with_latency (some latency) latencies = latencies ++ (latency ∷ [])

    unfoldable pub edge_start :
        Option EdgeAccumulator
        → String
        → Span Value
        → Span Value
        → EdgeKind
        → Bool
        → Option EdgeIdentity
        → EdgeAccumulator
    edge_start none id parent child kind blocking identity = record {
      id = id;
      edge = record {
        id = id;
        from = parent.service;
        to = child.service;
        kind = kind;
        blocking = blocking;
        identity = identity;
        metadata = none;
        resilience = none;
        observed = none;
        policy_scope = none;
      };
      observations = pos 0;
      trace_ids = [];
      evidence = [];
      latency_ms = [];
      seen = unseen;
    }
    edge_start (some acc) id parent child kind blocking identity = acc

    unfoldable pub update_edge_accumulator :
        Option EdgeAccumulator
        → String
        → Span Value
        → Span Value
        → EdgeKind
        → Bool
        → Option EdgeIdentity
        → List String
        → Bool
        → EdgeAccumulator
    unfolding edge_start note_trace add_evidence with_latency span_duration_ms observe_time
    update_edge_accumulator given id parent child kind blocking identity evidence runtime_mode =
        let acc = edge_start given id parent child kind blocking identity in
        record {
          id = acc.id;
          edge = acc.edge;
          observations = Int.add acc.observations (pos 1);
          trace_ids = note_trace child acc.trace_ids;
          evidence = add_evidence evidence acc.evidence;
          latency_ms = with_latency (span_duration_ms child) acc.latency_ms;
          seen = observe_time acc.seen (event_time child 0) runtime_mode;
        }
