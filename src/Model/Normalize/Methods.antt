-- ===== src/Model/Normalize/Methods.antt =====
-- internal/model/model.go: the `Normalize` and `IsZero` methods of the parts of a model.
use bering.Prelude.{
  String, ◌<>◌, Bool, true, false, ◌&&◌, not, Option, none, some, List, [], ◌∷◌, map, is_empty,
  if◌then◌else◌,
}
use bering.Go.Int
use bering.Go.Float.{FloatOps}
use bering.Go.Text.{trim_space, is_blank, to_lower, to_upper}
use bering.Go.Text.Order.{less}
use bering.Go.Map.{Map}
use bering.Go.Sort.{sort}
use bering.Model.Types.{
  CommonMetadata, ReliabilityEvidence, Placement, ServiceMetadata, EdgeIdentity, EdgeMetadata,
  EndpointSemantics, EndpointMetadata, BackoffPolicy, RetryPolicy, CircuitBreakerPolicy,
  ResiliencePolicy, LatencySummary, ObservedEdge, PolicyScope,
}
use bering.Model.Normalize.Texts.{
  normalize_string_map, normalize_string_slice, normalize_dependency_modes,
}

-- `x == nil`
abbrev pub is_none {ℓ} : {A : Type ℓ} → Option A → Bool
is_none none = true
is_none (some a) = false

-- `if x != nil { x.Normalize(); if x.IsZero() { x = nil } }`
abbrev pub normalize_pointer {ℓ} : {A : Type ℓ} → (A → A) → (A → Bool) → Option A → Option A
normalize_pointer normalize is_zero none = none
normalize_pointer normalize is_zero (some a) =
    let a' = normalize a in if is_zero a' then none else some a'

abbrev map_pointer {ℓ} : {A : Type ℓ} → (A → A) → Option A → Option A
map_pointer f none = none
map_pointer f (some a) = some (f a)

unfoldable pub normalize_common : CommonMetadata → CommonMetadata
normalize_common m = record {
  labels = normalize_string_map m.labels;
  tags = normalize_string_slice m.tags;
  slo_refs = normalize_string_slice m.slo_refs;
}

pub is_zero_common : CommonMetadata → Bool
is_zero_common m = is_empty m.labels && is_empty m.tags && is_empty m.slo_refs

pub is_zero_reliability : ReliabilityEvidence → Bool
is_zero_reliability r = is_none r.live_probability && is_blank r.source && is_none r.confidence

pub is_zero_service_metadata : ServiceMetadata → Bool
is_zero_service_metadata m =
    is_zero_common m.common
    && is_none m.reliability
    && is_none m.failure_eligible
    && is_empty m.placements
    && is_empty m.shared_resource_refs

pub is_zero_edge_metadata : EdgeMetadata → Bool
is_zero_edge_metadata m = is_zero_common m.common && is_none m.weight && is_none m.reliability

pub is_zero_endpoint_metadata : EndpointMetadata → Bool
is_zero_endpoint_metadata m = is_zero_common m.common && is_none m.weight && is_none m.semantics

pub is_zero_semantics : EndpointSemantics → Bool
is_zero_semantics s =
    is_blank (trim_space s.predicate_mode)
    && is_empty s.mandatory_targets
    && is_empty s.dependency_modes
    && is_blank (trim_space s.source)
    && is_none s.confidence

pub is_zero_resilience : ResiliencePolicy → Bool
is_zero_resilience p =
    is_none p.request_timeout_ms
    && is_none p.per_try_timeout_ms
    && is_none p.retry
    && is_none p.circuit_breaker

pub is_zero_retry : RetryPolicy → Bool
is_zero_retry p =
    is_none p.max_attempts && is_none p.budget_cap && is_empty p.retry_on && is_none p.backoff

pub is_zero_backoff : BackoffPolicy → Bool
is_zero_backoff p =
    is_none p.initial_ms && is_none p.max_ms && is_none p.multiplier && is_blank p.jitter

pub is_zero_circuit_breaker : CircuitBreakerPolicy → Bool
is_zero_circuit_breaker p =
    is_none p.enabled
    && is_none p.max_pending_requests
    && is_none p.max_requests
    && is_none p.max_connections
    && is_none p.consecutive_5xx
    && is_none p.interval_ms
    && is_none p.base_ejection_time_ms

pub is_zero_observed : ObservedEdge → Bool
is_zero_observed o = is_none o.latency_ms && is_none o.error_rate

pub is_zero_latency : LatencySummary → Bool
is_zero_latency s = is_none s.p50 && is_none s.p90 && is_none s.p95 && is_none s.p99

pub is_zero_policy_scope : PolicyScope → Bool
is_zero_policy_scope s =
    is_blank s.source_endpoint_id
    && is_blank s.source_route
    && is_blank s.method
    && is_blank s.operation

pub normalize_identity : EdgeIdentity → EdgeIdentity
normalize_identity i = record {
  protocol = to_lower (trim_space i.protocol);
  operation = trim_space i.operation;
  route = trim_space i.route;
  topic = trim_space i.topic;
  span_kind = to_lower (trim_space i.span_kind);
}

pub normalize_policy_scope : PolicyScope → PolicyScope
normalize_policy_scope s = record {
  source_endpoint_id = trim_space s.source_endpoint_id;
  source_route = trim_space s.source_route;
  method = to_upper (trim_space s.method);
  operation = trim_space s.operation;
}

pub normalize_backoff : BackoffPolicy → BackoffPolicy
normalize_backoff p = record p { jitter = trim_space p.jitter }

pub normalize_retry : RetryPolicy → RetryPolicy
unfolding normalize_backoff is_zero_backoff
normalize_retry p = record p {
  retry_on = normalize_string_slice p.retry_on;
  backoff = normalize_pointer normalize_backoff is_zero_backoff p.backoff;
}

-- `CircuitBreakerPolicy.Normalize` does nothing.
pub normalize_resilience : ResiliencePolicy → ResiliencePolicy
unfolding normalize_retry is_zero_retry is_zero_circuit_breaker
normalize_resilience p = record p {
  retry = normalize_pointer normalize_retry is_zero_retry p.retry;
  circuit_breaker = normalize_pointer (λ b. b) is_zero_circuit_breaker p.circuit_breaker;
}

-- `key=value` for each key in order, joined by "|".
label_parts : Map String → List (String × String)
label_parts labels = sort (λ a b. less a.0 b.0) labels

join_parts : List (String × String) → String
join_parts [] = ""
join_parts ((key, value) ∷ []) = key <> ("=" <> value)
join_parts ((key, value) ∷ next ∷ rest) =
    key <> ("=" <> (value <> ("|" <> join_parts (next ∷ rest))))

pub placement_key : Placement → String
unfolding label_parts join_parts
placement_key value = join_parts (label_parts value.labels)

pub placement_less : Placement → Placement → Bool
unfolding placement_key
placement_less left right =
    if not (Int.equal left.replicas right.replicas)
    then Int.lt left.replicas right.replicas
    else less (placement_key left) (placement_key right)

module _ (fl : FloatOps) where
  pub normalize_reliability : ReliabilityEvidence → ReliabilityEvidence
  normalize_reliability r = record {
    live_probability = map_pointer fl.fixed3 r.live_probability;
    source = trim_space r.source;
    confidence = map_pointer fl.fixed3 r.confidence;
  }

  pub normalize_placement : Placement → Placement
  unfolding normalize_reliability is_zero_reliability
  normalize_placement p = record p {
    labels = normalize_string_map p.labels;
    reliability = normalize_pointer normalize_reliability is_zero_reliability p.reliability;
  }

  pub normalize_service_metadata : ServiceMetadata → ServiceMetadata
  unfolding normalize_reliability is_zero_reliability normalize_placement normalize_common
      placement_less
  normalize_service_metadata m = record m {
    common = normalize_common m.common;
    reliability = normalize_pointer normalize_reliability is_zero_reliability m.reliability;
    placements = sort placement_less (map normalize_placement m.placements);
    shared_resource_refs = normalize_string_slice m.shared_resource_refs;
  }

  pub normalize_edge_metadata : EdgeMetadata → EdgeMetadata
  unfolding normalize_reliability is_zero_reliability normalize_common
  normalize_edge_metadata m = record m {
    common = normalize_common m.common;
    reliability = normalize_pointer normalize_reliability is_zero_reliability m.reliability;
  }

  unfoldable pub normalize_semantics : EndpointSemantics → EndpointSemantics
  normalize_semantics s = record {
    predicate_mode = to_lower (trim_space s.predicate_mode);
    mandatory_targets = normalize_string_slice s.mandatory_targets;
    dependency_modes = normalize_dependency_modes s.dependency_modes;
    source = trim_space s.source;
    confidence = map_pointer fl.fixed3 s.confidence;
  }

  unfoldable pub normalize_endpoint_metadata : EndpointMetadata → EndpointMetadata
  unfolding normalize_semantics is_zero_semantics normalize_common
  normalize_endpoint_metadata m = record m {
    common = normalize_common m.common;
    semantics = normalize_pointer normalize_semantics is_zero_semantics m.semantics;
  }

  pub normalize_latency : LatencySummary → LatencySummary
  normalize_latency s = record {
    p50 = map_pointer fl.fixed3 s.p50;
    p90 = map_pointer fl.fixed3 s.p90;
    p95 = map_pointer fl.fixed3 s.p95;
    p99 = map_pointer fl.fixed3 s.p99;
  }

  pub normalize_observed : ObservedEdge → ObservedEdge
  unfolding normalize_latency is_zero_latency
  normalize_observed o = record {
    latency_ms = normalize_pointer normalize_latency is_zero_latency o.latency_ms;
    error_rate = map_pointer fl.fixed3 o.error_rate;
  }
