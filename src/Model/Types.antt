-- ===== src/Model/Types.antt =====
-- internal/model/model.go: the types of the model. A pointer is an `Option`; a nil slice and an
-- empty slice are both `[]`. The kind of an edge is a text in the source, so any text may stand there.
use bering.Prelude.{String, Bool, Option, List}
use bering.Go.Int.{ℤ}
use bering.Go.Float.{Float}
use bering.Go.Map.{Map}

abbrev pub EdgeKind : Type 0
EdgeKind = String

abbrev pub edge_kind_sync : EdgeKind
edge_kind_sync = "sync"

abbrev pub edge_kind_async : EdgeKind
edge_kind_async = "async"

abbrev pub endpoint_predicate_mode_immediate : String
endpoint_predicate_mode_immediate = "immediate_response"

abbrev pub endpoint_predicate_mode_eventual : String
endpoint_predicate_mode_eventual = "eventual_completion"

abbrev pub endpoint_predicate_mode_external : String
endpoint_predicate_mode_external = "external_predicate"

pub record EdgeIdentity : Type 0 where
  pub protocol : String
  pub operation : String
  pub route : String
  pub topic : String
  pub span_kind : String

pub record CommonMetadata : Type 0 where
  pub labels : Map String
  pub tags : List String
  pub slo_refs : List String

pub record ReliabilityEvidence : Type 0 where
  pub live_probability : Option Float
  pub source : String
  pub confidence : Option Float

pub record Placement : Type 0 where
  pub replicas : ℤ
  pub labels : Map String
  pub reliability : Option ReliabilityEvidence

pub record ServiceMetadata : Type 0 where
  pub common : CommonMetadata
  pub reliability : Option ReliabilityEvidence
  pub failure_eligible : Option Bool
  pub placements : List Placement
  pub shared_resource_refs : List String

pub record EdgeMetadata : Type 0 where
  pub common : CommonMetadata
  pub weight : Option Float
  pub reliability : Option ReliabilityEvidence

pub record EndpointSemantics : Type 0 where
  pub predicate_mode : String
  pub mandatory_targets : List String
  pub dependency_modes : List String
  pub source : String
  pub confidence : Option Float

pub record EndpointMetadata : Type 0 where
  pub common : CommonMetadata
  pub weight : Option Float
  pub semantics : Option EndpointSemantics

pub record BackoffPolicy : Type 0 where
  pub initial_ms : Option ℤ
  pub max_ms : Option ℤ
  pub multiplier : Option Float
  pub jitter : String

pub record RetryPolicy : Type 0 where
  pub max_attempts : Option ℤ
  pub budget_cap : Option Float
  pub retry_on : List String
  pub backoff : Option BackoffPolicy

pub record CircuitBreakerPolicy : Type 0 where
  pub enabled : Option Bool
  pub max_pending_requests : Option ℤ
  pub max_requests : Option ℤ
  pub max_connections : Option ℤ
  pub consecutive_5xx : Option ℤ
  pub interval_ms : Option ℤ
  pub base_ejection_time_ms : Option ℤ

pub record ResiliencePolicy : Type 0 where
  pub request_timeout_ms : Option ℤ
  pub per_try_timeout_ms : Option ℤ
  pub retry : Option RetryPolicy
  pub circuit_breaker : Option CircuitBreakerPolicy

pub record LatencySummary : Type 0 where
  pub p50 : Option Float
  pub p90 : Option Float
  pub p95 : Option Float
  pub p99 : Option Float

pub record ObservedEdge : Type 0 where
  pub latency_ms : Option LatencySummary
  pub error_rate : Option Float

pub record PolicyScope : Type 0 where
  pub source_endpoint_id : String
  pub source_route : String
  pub method : String
  pub operation : String

pub record Service : Type 0 where
  pub id : String
  pub name : String
  pub replicas : ℤ
  pub metadata : Option ServiceMetadata

pub record Edge : Type 0 where
  pub id : String
  pub from : String
  pub to : String
  pub kind : EdgeKind
  pub blocking : Bool
  pub identity : Option EdgeIdentity
  pub metadata : Option EdgeMetadata
  pub resilience : Option ResiliencePolicy
  pub observed : Option ObservedEdge
  pub policy_scope : Option PolicyScope

pub record Endpoint : Type 0 where
  pub id : String
  pub entry_service : String
  pub success_predicate_ref : String
  pub method : String
  pub path : String
  pub metadata : Option EndpointMetadata

pub record SchemaRef : Type 0 where
  pub name : String
  pub version : String
  pub uri : String
  pub digest : String

pub record Metadata : Type 0 where
  pub source_type : String
  pub source_ref : String
  pub discovered_at : String
  pub confidence : Float
  pub schema : SchemaRef

pub record ResilienceModel : Type 0 where
  pub services : List Service
  pub edges : List Edge
  pub endpoints : List Endpoint
  pub metadata : Metadata
