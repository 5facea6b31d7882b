-- ===== src/Model/Validate/Targets.antt =====
-- internal/model/model.go: the mandatory targets that `ValidateSemantic` accepts.
use bering.Prelude.{ℕ, ◌+◌, String, ◌≡◌, Option, none, some, List, [], ◌∷◌, All, All-imp, arith, ok}
use bering.Go.Float.{FloatOps}
use bering.Go.Time.{Rfc3339}
use bering.Model.Types.{EndpointSemantics, EndpointMetadata, ResilienceModel}
use bering.Model.Integrity.{IsTarget, semantic_targets, mandatory_targets, IsResolved}
use bering.Model.Validate.{validate_semantic}
use bering.Model.Validate.Parts.{
  validate_mandatory_targets, validate_endpoint_semantics, validate_endpoint_metadata,
}
use bering.Model.Validate.Steps.{IsEndpointOk}
use bering.Model.Validate.Exact.{service_ids, validate_semantic_iff}

targets-IsTarget :
    (n : ℕ) (ids ts : List String)
    → validate_mandatory_targets n ids ts ≡ ok tt
    → All (IsTarget ids) ts
unfolding validate_mandatory_targets
targets-IsTarget n ids [] h = tt
targets-IsTarget n ids (t ∷ ts) h = ground (arith, targets-IsTarget (n + 1) ids ts)

module _ (fl : FloatOps) where
  semantics-IsTarget :
      (ids : List String) (o : Option EndpointSemantics)
      → validate_endpoint_semantics fl o ids ≡ ok tt
      → All (IsTarget ids) (semantic_targets o)
  unfolding validate_endpoint_semantics
  semantics-IsTarget ids none h = tt
  semantics-IsTarget ids (some s) h = targets-IsTarget 0 ids s.mandatory_targets (ground (arith, h))

  metadata-IsTarget :
      (ids : List String) (o : Option EndpointMetadata)
      → validate_endpoint_metadata fl o ids ≡ ok tt
      → All (IsTarget ids) (mandatory_targets o)
  unfolding validate_endpoint_metadata
  metadata-IsTarget ids none h = tt
  metadata-IsTarget ids (some m) h = semantics-IsTarget ids m.semantics (ground (arith, h))

  -- In a model that is accepted every reference to a service is resolved.
  pub validate_semantic-IsResolved :
      (clock : Rfc3339) (m : ResilienceModel) → validate_semantic fl clock m ≡ ok tt → IsResolved m
  validate_semantic-IsResolved clock m h =
      let v = (validate_semantic_iff fl clock m).0 h in
      record {
        integrity = v.integrity;
        targets =
            All-imp (IsEndpointOk fl (service_ids m)) _ m.endpoints
              (λ e is. metadata-IsTarget (service_ids m) e.metadata is.metadata) v.endpoints;
      }
