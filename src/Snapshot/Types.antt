-- ===== src/Snapshot/Types.antt =====
-- internal/snapshot/snapshot.go: the types of the envelope and of the discovery records. A field
-- `attributes` beside an embedded struct of the model is kept; the embedded struct is `base`.
use bering.Prelude.{String, Bool, Option, List}
use bering.Go.Int.{ℤ}
use bering.Go.Float.{Float}
use bering.Go.Map.{Map}
use bering.Model.Types.{
  EdgeKind, EdgeIdentity, ResiliencePolicy, ObservedEdge, PolicyScope, SchemaRef,
}
use bering.Model.Types.{ResilienceModel}
use bering.Model.Types as Model

pub record IngestSummary : Type 0 where
  pub spans : ℤ
  pub traces : ℤ
  pub dropped_spans : ℤ
  pub late_spans : ℤ

pub record Counts : Type 0 where
  pub services : ℤ
  pub edges : ℤ
  pub endpoints : ℤ

pub record CoverageSummary : Type 0 where
  pub confidence : Float
  pub service_support_min : ℤ
  pub edge_support_min : ℤ
  pub endpoint_support_min : ℤ

pub record SourceSummary : Type 0 where
  pub type : String
  pub connector : String
  pub ref : String
  pub observations : ℤ

pub record DiffSummary : Type 0 where
  pub added_services : ℤ
  pub removed_services : ℤ
  pub changed_services : ℤ
  pub added_edges : ℤ
  pub removed_edges : ℤ
  pub changed_edges : ℤ
  pub added_endpoints : ℤ
  pub removed_endpoints : ℤ
  pub changed_endpoints : ℤ

pub record OverlayApplication : Type 0 where
  pub name : String
  pub ref : String
  pub precedence : ℤ

pub record Provenance : Type 0 where
  pub type : String
  pub connector : String
  pub name : String
  pub ref : String
  pub precedence : ℤ

pub record SupportSummary : Type 0 where
  pub observations : ℤ
  pub trace_count : ℤ
  pub evidence : List String

pub record ServiceMetadata : Type 0 where
  pub base : Model.ServiceMetadata
  pub replicas_override : Option ℤ
  pub attributes : Map String

pub record EdgeMetadata : Type 0 where
  pub base : Model.EdgeMetadata
  pub attributes : Map String

pub record EndpointMetadata : Type 0 where
  pub base : Model.EndpointMetadata
  pub predicate_ref : String
  pub attributes : Map String

pub record ServiceRecord : Type 0 where
  pub id : String
  pub name : String
  pub replicas : ℤ
  pub support : SupportSummary
  pub first_seen : String
  pub last_seen : String
  pub provenance : List Provenance
  pub metadata : Option ServiceMetadata

pub record EdgeRecord : Type 0 where
  pub id : String
  pub from : String
  pub to : String
  pub kind : EdgeKind
  pub blocking : Bool
  pub identity : Option EdgeIdentity
  pub support : SupportSummary
  pub first_seen : String
  pub last_seen : String
  pub provenance : List Provenance
  pub metadata : Option EdgeMetadata
  pub resilience : Option ResiliencePolicy
  pub observed : Option ObservedEdge
  pub policy_scope : Option PolicyScope

pub record EndpointRecord : Type 0 where
  pub id : String
  pub entry_service : String
  pub method : String
  pub path : String
  pub support : SupportSummary
  pub first_seen : String
  pub last_seen : String
  pub provenance : List Provenance
  pub metadata : Option EndpointMetadata

pub record DiscoveryDetails : Type 0 where
  pub services : List ServiceRecord
  pub edges : List EdgeRecord
  pub endpoints : List EndpointRecord
  pub overlays : List OverlayApplication

pub record Metadata : Type 0 where
  pub source_type : String
  pub source_ref : String
  pub emitted_at : String
  pub confidence : Float
  pub schema : SchemaRef

pub record Envelope : Type 0 where
  pub snapshot_id : String
  pub topology_version : String
  pub window_start : String
  pub window_end : String
  pub ingest : IngestSummary
  pub counts : Counts
  pub coverage : CoverageSummary
  pub sources : List SourceSummary
  pub diff : DiffSummary
  pub discovery : DiscoveryDetails
  pub model : ResilienceModel
  pub metadata : Metadata
