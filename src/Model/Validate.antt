-- ===== src/Model/Validate.antt =====
-- internal/model/model.go: `ValidateSemantic`. The checks of the parts are in `Parts`; the proofs
-- are in the other child modules.
pub mod Errors
pub mod Parts
pub mod Steps
pub mod Loops
pub mod Exact
pub mod Targets
use bering.Prelude.{
  String, ◌<>◌, Bool, true, false, ◌&&◌, ◌||◌, not, List, [], ◌∷◌, ◌==◌, is_empty, if◌then◌else◌,
  Result, ◌>>◌, ◌>>=◌, Checked, ok, fail_if,
}
use bering.Go.Int
use bering.Go.Int.{pos}
use bering.Go.Float.{FloatOps}
use bering.Go.Text.{trim_space, is_blank}
use bering.Go.Time.{Rfc3339}
use bering.Go.Map.{is_some, contains}
use bering.Model.Types.{
  Service, Edge, Endpoint, Metadata, ResilienceModel, EdgeKind, edge_kind_sync, edge_kind_async,
}
use Errors.{
  Error, services_empty, service_id_empty, service_name_empty, service_replicas, service_duplicate,
  service_metadata, edge_from_unknown, edge_to_unknown, edge_kind_unsupported, edge_duplicate,
  edge_identity, edge_metadata, edge_resilience, edge_observed, endpoint_id_empty,
  endpoint_duplicate, endpoint_service_unknown, endpoint_predicate_empty, endpoint_metadata,
  source_type_empty, source_ref_empty, discovered_at_empty, discovered_at_unreadable,
  confidence_range, within,
}
use Parts.{
  validate_service_metadata, validate_edge_identity, validate_edge_metadata, validate_resilience,
  validate_observed, validate_endpoint_metadata, out_of_unit,
}

-- `EdgeID`
unfoldable pub edge_id : String → String → EdgeKind → Bool → String
edge_id from to kind blocking =
    trim_space from
    <> "|"
    <> trim_space to
    <> "|"
    <> kind
    <> "|"
    <> (if blocking then "true" else "false")

unfoldable pub edge_identifier : Edge → String
edge_identifier edge =
    if not (is_blank (trim_space edge.id))
    then edge.id
    else edge_id edge.from edge.to edge.kind edge.blocking

-- The set of edge identifiers after an edge: a blank one is not recorded.
unfoldable pub record_edge_id : Edge → List String → List String
record_edge_id edge seen = if is_blank (trim_space edge.id) then seen else trim_space edge.id ∷ seen

unfoldable pub is_edge_kind : EdgeKind → Bool
is_edge_kind kind = kind == edge_kind_sync || kind == edge_kind_async

module _ (fl : FloatOps) where
  unfoldable pub check_service : List String → Service → Checked Error
  check_service seen svc = do
    fail_if (is_blank (trim_space svc.id)) service_id_empty
    fail_if (is_blank (trim_space svc.name)) (service_name_empty svc.id)
    fail_if (Int.le svc.replicas (pos 0)) (service_replicas svc.id)
    fail_if (contains seen svc.id) (service_duplicate svc.id)
    within (service_metadata svc.id) (validate_service_metadata fl svc.metadata)

  -- The first loop; it returns `serviceSet`.
  unfoldable pub check_services : List String → List Service → Result Error (List String)
  check_services seen [] = ok seen
  check_services seen (svc ∷ rest) = do check_service seen svc; check_services (svc.id ∷ seen) rest

  unfoldable pub check_edge : List String → List String → Edge → Checked Error
  unfolding is_edge_kind
  check_edge service_set seen edge = do
    fail_if (not (contains service_set edge.from)) (edge_from_unknown edge.from)
    fail_if (not (contains service_set edge.to)) (edge_to_unknown edge.to)
    fail_if (not (is_edge_kind edge.kind)) (edge_kind_unsupported edge.kind)
    fail_if (not (is_blank (trim_space edge.id)) && contains seen (trim_space edge.id))
        (edge_duplicate (trim_space edge.id))
    within (edge_identity (edge_identifier edge)) (validate_edge_identity edge.identity)
    within (edge_metadata (edge_identifier edge)) (validate_edge_metadata fl edge.metadata)
    within (edge_resilience (edge_identifier edge)) (validate_resilience fl edge.resilience)
    within (edge_observed (edge_identifier edge)) (validate_observed fl edge.observed)

  unfoldable pub check_edges : List String → List String → List Edge → Checked Error
  check_edges service_set seen [] = ok tt
  check_edges service_set seen (edge ∷ rest) = do
    check_edge service_set seen edge
    check_edges service_set (record_edge_id edge seen) rest

  unfoldable pub check_endpoint : List String → List String → Endpoint → Checked Error
  check_endpoint service_set seen endpoint = do
    fail_if (is_blank (trim_space endpoint.id)) endpoint_id_empty
    fail_if (contains seen endpoint.id) (endpoint_duplicate endpoint.id)
    fail_if (not (contains service_set endpoint.entry_service))
        (endpoint_service_unknown endpoint.id endpoint.entry_service)
    fail_if (is_blank (trim_space endpoint.success_predicate_ref))
        (endpoint_predicate_empty endpoint.id)
    within (endpoint_metadata endpoint.id)
        (validate_endpoint_metadata fl endpoint.metadata service_set)

  unfoldable pub check_endpoints : List String → List String → List Endpoint → Checked Error
  check_endpoints service_set seen [] = ok tt
  check_endpoints service_set seen (endpoint ∷ rest) = do
    check_endpoint service_set seen endpoint
    check_endpoints service_set (endpoint.id ∷ seen) rest

  module _ (clock : Rfc3339) where
    unfoldable pub check_metadata : Metadata → Checked Error
    check_metadata meta = do
      fail_if (is_blank (trim_space meta.source_type)) source_type_empty
      fail_if (is_blank (trim_space meta.source_ref)) source_ref_empty
      fail_if (is_blank (trim_space meta.discovered_at)) discovered_at_empty
      fail_if (not (is_some (clock.parse meta.discovered_at))) discovered_at_unreadable
      fail_if (out_of_unit fl meta.confidence) confidence_range

    unfoldable pub validate_semantic : ResilienceModel → Checked Error
    unfolding check_services check_edges check_endpoints check_metadata check_service check_edge
        check_endpoint is_edge_kind record_edge_id
    validate_semantic m = do
      fail_if (is_empty m.services) services_empty
      service_set ← check_services [] m.services
      check_edges service_set [] m.edges
      check_endpoints service_set [] m.endpoints
      check_metadata m.metadata
