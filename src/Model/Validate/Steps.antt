-- ===== src/Model/Validate/Steps.antt =====
-- internal/model/model.go: what each step of `ValidateSemantic` establishes.
use bering.Prelude.{String, ◌≡◌, true, false, List, arith, ok, ◌⊎◌, ◌↔◌, eq_iff}
use bering.Go.Int.{pos, ◌≤ℤ◌}
use bering.Go.Float.{FloatOps, InUnit}
use bering.Go.Text.{trim_space, is_blank}
use bering.Go.Time.{Rfc3339}
use bering.Go.Map.{contains, is_some}
use bering.Model.Types.{Service, Edge, Endpoint, Metadata, edge_kind_sync, edge_kind_async}
use bering.Model.Integrity.{Names, Enters}
use bering.Model.Validate.{check_service, check_edge, check_endpoint, check_metadata}
use bering.Model.Validate.Parts.{
  validate_service_metadata, validate_edge_identity, validate_edge_metadata, validate_resilience,
  validate_observed, validate_endpoint_metadata,
}

abbrev pub NonBlank : String → Type 0
NonBlank s = is_blank (trim_space s) ≡ false

-- A service that the model may publish.
pub record IsServiceOk (fl : FloatOps) (s : Service) : Type 0 where
  pub id : NonBlank s.id
  pub name : NonBlank s.name
  pub replicas : pos 1 ≤ℤ s.replicas
  pub metadata : validate_service_metadata fl s.metadata ≡ ok tt

pub record IsEdgeOk (fl : FloatOps) (e : Edge) : Type 0 where
  pub kind : (e.kind ≡ edge_kind_sync) ⊎ (e.kind ≡ edge_kind_async)
  pub identity : validate_edge_identity e.identity ≡ ok tt
  pub metadata : validate_edge_metadata fl e.metadata ≡ ok tt
  pub resilience : validate_resilience fl e.resilience ≡ ok tt
  pub observed : validate_observed fl e.observed ≡ ok tt

-- An edge with a name has one that no earlier edge has.
abbrev pub IsNewEdge : List String → Edge → Type 0
IsNewEdge seen e = (is_blank (trim_space e.id) ≡ true) ⊎ (contains seen (trim_space e.id) ≡ false)

pub record IsEndpointOk (fl : FloatOps) (ids : List String) (e : Endpoint) : Type 0 where
  pub id : NonBlank e.id
  pub predicate : NonBlank e.success_predicate_ref
  pub metadata : validate_endpoint_metadata fl e.metadata ids ≡ ok tt

pub record IsMetadataOk (fl : FloatOps) (clock : Rfc3339) (m : Metadata) : Type 0 where
  pub source_type : NonBlank m.source_type
  pub source_ref : NonBlank m.source_ref
  pub discovered : NonBlank m.discovered_at
  pub discovered_at : is_some (clock.parse m.discovered_at) ≡ true
  pub confidence : InUnit fl m.confidence

module _ (fl : FloatOps) where
  pub check_service_lem :
      (seen : List String) (s : Service)
      → (check_service fl seen s ≡ ok tt) ↔ (IsServiceOk fl s × (contains seen s.id ≡ false))
  unfolding check_service
  check_service_lem seen s = ground arith

  pub check_edge_lem :
      (ids seen : List String) (e : Edge)
      → (check_edge fl ids seen e ≡ ok tt) ↔ (Names ids e × IsEdgeOk fl e × IsNewEdge seen e)
  unfolding check_edge
  check_edge_lem ids seen e =
      ground (arith, eq_iff e.kind edge_kind_sync, eq_iff e.kind edge_kind_async)

  pub check_endpoint_lem :
      (ids seen : List String) (e : Endpoint)
      → (check_endpoint fl ids seen e ≡ ok tt)
        ↔ (Enters ids e × IsEndpointOk fl ids e × (contains seen e.id ≡ false))
  unfolding check_endpoint
  check_endpoint_lem ids seen e = ground arith

  pub check_metadata_lem :
      (clock : Rfc3339) (m : Metadata)
      → (check_metadata fl clock m ≡ ok tt) ↔ IsMetadataOk fl clock m
  unfolding check_metadata
  check_metadata_lem clock m = ground arith
