-- ===== src/Model/Normalize/Sort.antt =====
-- internal/model/model.go: `normalizeForOutput` of services, edges and endpoints, and
-- `SortDeterministic`.
use bering.Prelude.{Bool, ◌&&◌, not, map, ◌==◌, if◌then◌else◌}
use bering.Go.Float.{FloatOps}
use bering.Go.Text.{trim_space, is_blank}
use bering.Go.Text.Order.{less}
use bering.Go.Sort.{sort}
use bering.Model.Types.{Service, Edge, Endpoint, ResilienceModel}
use bering.Model.Normalize.Texts.{edge_id_with_identity, is_zero_identity}
use bering.Model.Normalize.Methods.{
  normalize_pointer, normalize_identity, normalize_service_metadata, is_zero_service_metadata,
  normalize_edge_metadata, is_zero_edge_metadata, normalize_resilience, is_zero_resilience,
  normalize_observed, is_zero_observed, normalize_policy_scope, is_zero_policy_scope,
  normalize_endpoint_metadata, is_zero_endpoint_metadata,
}

unfoldable pub service_less : Service → Service → Bool
service_less left right = less left.id right.id

unfoldable pub endpoint_less : Endpoint → Endpoint → Bool
endpoint_less left right = less left.id right.id

unfoldable pub edge_less : Edge → Edge → Bool
edge_less left right =
    if not (left.id == right.id)
    then less left.id right.id
    else if not (left.from == right.from)
    then less left.from right.from
    else if not (left.to == right.to)
    then less left.to right.to
    else if not (left.kind == right.kind)
    then less left.kind right.kind
    else not left.blocking && right.blocking

module _ (fl : FloatOps) where
  unfoldable pub normalize_service : Service → Service
  normalize_service s = record s {
    metadata =
        normalize_pointer (normalize_service_metadata fl) is_zero_service_metadata s.metadata;
  }

  unfoldable pub normalize_edge : Edge → Edge
  normalize_edge e =
      let identity = normalize_pointer normalize_identity is_zero_identity e.identity in
      record e {
        identity = identity;
        id =
            if is_blank (trim_space e.id)
            then edge_id_with_identity e.from e.to e.kind e.blocking identity
            else e.id;
        metadata = normalize_pointer (normalize_edge_metadata fl) is_zero_edge_metadata e.metadata;
        resilience = normalize_pointer normalize_resilience is_zero_resilience e.resilience;
        observed = normalize_pointer (normalize_observed fl) is_zero_observed e.observed;
        policy_scope = normalize_pointer normalize_policy_scope is_zero_policy_scope e.policy_scope;
      }

  unfoldable pub normalize_endpoint : Endpoint → Endpoint
  normalize_endpoint e = record e {
    metadata =
        normalize_pointer (normalize_endpoint_metadata fl) is_zero_endpoint_metadata e.metadata;
  }

  unfoldable pub sort_deterministic : ResilienceModel → ResilienceModel
  unfolding normalize_service normalize_edge normalize_endpoint service_less edge_less endpoint_less
  sort_deterministic m = record m {
    services = sort service_less (map normalize_service m.services);
    edges = sort edge_less (map normalize_edge m.edges);
    endpoints = sort endpoint_less (map normalize_endpoint m.endpoints);
  }
