-- ===== src/Snapshot/Normalize.antt =====
-- internal/snapshot/snapshot.go: the `Normalize` and `IsZero` methods of the records' metadata,
-- `normalizeForOutput` and `SortDeterministic`.
use bering.Prelude.{Bool, ◌&&◌, not, map, is_empty, ◌==◌, if◌then◌else◌}
use bering.Go.Int
use bering.Go.Float.{FloatOps}
use bering.Go.Text.{trim_space, is_blank}
use bering.Go.Text.Order.{less}
use bering.Go.Sort.{sort}
use bering.Model.Normalize.Texts.{normalize_string_map, is_zero_identity}
use bering.Model.Normalize.Methods as Methods
use bering.Model.Normalize.Methods.{
  is_none, normalize_pointer, normalize_identity, normalize_resilience, is_zero_resilience,
  normalize_observed, is_zero_observed, normalize_policy_scope, is_zero_policy_scope,
}
use bering.Model.Normalize.Sort as Sort
use bering.Snapshot.Types.{
  ServiceMetadata, EdgeMetadata, EndpointMetadata, ServiceRecord, EdgeRecord, EndpointRecord,
  SourceSummary, OverlayApplication, DiscoveryDetails, Envelope,
}

is_zero_service_metadata : ServiceMetadata → Bool
is_zero_service_metadata m =
    Methods.is_zero_service_metadata m.base && is_none m.replicas_override && is_empty m.attributes

is_zero_edge_metadata : EdgeMetadata → Bool
is_zero_edge_metadata m = Methods.is_zero_edge_metadata m.base && is_empty m.attributes

is_zero_endpoint_metadata : EndpointMetadata → Bool
is_zero_endpoint_metadata m =
    Methods.is_zero_endpoint_metadata m.base && is_blank m.predicate_ref && is_empty m.attributes

unfoldable pub source_less : SourceSummary → SourceSummary → Bool
source_less left right =
    if not (left.type == right.type)
    then less left.type right.type
    else if not (left.connector == right.connector)
    then less left.connector right.connector
    else less left.ref right.ref

unfoldable pub service_record_less : ServiceRecord → ServiceRecord → Bool
service_record_less left right = less left.id right.id

unfoldable pub edge_record_less : EdgeRecord → EdgeRecord → Bool
edge_record_less left right = less left.id right.id

unfoldable pub endpoint_record_less : EndpointRecord → EndpointRecord → Bool
endpoint_record_less left right = less left.id right.id

unfoldable pub overlay_less : OverlayApplication → OverlayApplication → Bool
overlay_less left right =
    if not (Int.equal left.precedence right.precedence)
    then Int.lt left.precedence right.precedence
    else less left.name right.name

module _ (fl : FloatOps) where
  normalize_service_metadata : ServiceMetadata → ServiceMetadata
  normalize_service_metadata m = record m {
    base = Methods.normalize_service_metadata fl m.base;
    attributes = normalize_string_map m.attributes;
  }

  normalize_edge_metadata : EdgeMetadata → EdgeMetadata
  normalize_edge_metadata m = record m {
    base = Methods.normalize_edge_metadata fl m.base;
    attributes = normalize_string_map m.attributes;
  }

  normalize_endpoint_metadata : EndpointMetadata → EndpointMetadata
  normalize_endpoint_metadata m = record m {
    base = Methods.normalize_endpoint_metadata fl m.base;
    predicate_ref = trim_space m.predicate_ref;
    attributes = normalize_string_map m.attributes;
  }

  unfoldable pub normalize_service_record : ServiceRecord → ServiceRecord
  unfolding normalize_service_metadata is_zero_service_metadata
  normalize_service_record r = record r {
    metadata = normalize_pointer normalize_service_metadata is_zero_service_metadata r.metadata;
  }

  unfoldable pub normalize_edge_record : EdgeRecord → EdgeRecord
  unfolding normalize_edge_metadata is_zero_edge_metadata
  normalize_edge_record r = record r {
    identity = normalize_pointer normalize_identity is_zero_identity r.identity;
    metadata = normalize_pointer normalize_edge_metadata is_zero_edge_metadata r.metadata;
    resilience = normalize_pointer normalize_resilience is_zero_resilience r.resilience;
    observed = normalize_pointer (normalize_observed fl) is_zero_observed r.observed;
    policy_scope = normalize_pointer normalize_policy_scope is_zero_policy_scope r.policy_scope;
  }

  unfoldable pub normalize_endpoint_record : EndpointRecord → EndpointRecord
  unfolding normalize_endpoint_metadata is_zero_endpoint_metadata
  normalize_endpoint_record r = record r {
    metadata = normalize_pointer normalize_endpoint_metadata is_zero_endpoint_metadata r.metadata;
  }

  unfoldable pub sort_details : DiscoveryDetails → DiscoveryDetails
  unfolding service_record_less edge_record_less endpoint_record_less overlay_less
  sort_details d = record d {
    services = sort service_record_less (map normalize_service_record d.services);
    edges = sort edge_record_less (map normalize_edge_record d.edges);
    endpoints = sort endpoint_record_less (map normalize_endpoint_record d.endpoints);
    overlays = sort overlay_less d.overlays;
  }

  unfoldable pub sort_deterministic : Envelope → Envelope
  unfolding source_less sort_details
  sort_deterministic e = record e {
    sources = sort source_less e.sources;
    discovery = sort_details e.discovery;
    model = Sort.sort_deterministic fl e.model;
  }
