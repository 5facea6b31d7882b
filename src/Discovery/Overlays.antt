-- ===== src/Discovery/Overlays.antt =====
-- internal/discovery/discovery.go: `applyOverlays`, with `validateObservationOverlay` of
-- observations.go. The maps from an identifier to a
-- position are made once, before the overlays are applied. The lists are the ones that the caller
-- drops when an error comes back, so an error has no lists beside it.
pub mod Keys
pub mod Identity
pub mod Resolution
use bering.Prelude.{
  ℕ, String, Option, none, some, List, [], ◌∷◌, ◌++◌, Result, ok, ◌>>=◌, ◌>>◌, fail_if, Checked,
}
use bering.Go.Int
use bering.Go.Int.{ℤ, pos}
use bering.Go.Float.{FloatOps}
use bering.Go.Map.{Map, lookup, has}
use bering.Model.Types.{Service, Edge, Endpoint}
use bering.Snapshot.Types.{
  Provenance, OverlayApplication, ServiceRecord, EdgeRecord, EndpointRecord,
}
use bering.Overlay.Types.{ServiceOverlay, EdgeOverlay, EndpointOverlay, File}
use bering.Discovery.Attributes.{Texts}
use bering.Discovery.Positions.{Layers, Positions, positions_of, found, edge_position, merge_at}
use bering.Discovery.Merge.{merge_service_metadata, merge_edge_metadata, merge_endpoint_metadata}

pub data OverlayError : Type 0 where
  reserved_attribute : String → String → String → OverlayError
  unknown_service : String → String → OverlayError
  unknown_model_service : String → String → OverlayError
  ambiguous_edge : String → String → OverlayError
  unknown_edge : String → String → OverlayError
  ambiguous_model_edge : String → String → OverlayError
  unknown_model_edge : String → String → OverlayError
  unknown_endpoint : String → String → OverlayError
  unknown_model_endpoint : String → String → OverlayError

-- `evidence.AttributeKey`
abbrev pub attribute_key : String
attribute_key = "bering.observation_evidence.v1"

-- A loop that stops at the first error.
unfoldable pub each {ℓ κ} :
    {A : Type ℓ} {S : Type κ} → (A → S → Result OverlayError S) → List A → S → Result OverlayError S
each step [] s = ok s
each step (x ∷ xs) s = step x s >>= λ s'. each step xs s'

-- The change at the position in the records and the one in the model.
unfoldable pub at_positions :
    Result OverlayError ℕ → Result OverlayError ℕ → (ℕ → ℕ → Layers) → Result OverlayError Layers
at_positions recorded modelled change = recorded >>= λ i. modelled >>= λ j. ok (change i j)

-- `check` of `validateObservationOverlay`
check_reserved : String → String → String → Map String → Checked OverlayError
check_reserved name kind id attributes =
    fail_if (has attribute_key attributes) (reserved_attribute name kind id)

unfoldable pub check_all {ℓ} :
    {A : Type ℓ} → (A → Checked OverlayError) → List A → Checked OverlayError
check_all check [] = ok tt
check_all check (x ∷ xs) = check x >> check_all check xs

unfoldable pub validate_observation_overlay : File → Checked OverlayError
unfolding check_reserved
validate_observation_overlay f =
    check_all (λ s. check_reserved f.name "service" s.id s.metadata.attributes) f.services
    >> check_all (λ e. check_reserved f.name "edge" e.id e.metadata.attributes) f.edges
    >> check_all (λ e. check_reserved f.name "endpoint" e.id e.metadata.attributes) f.endpoints

replicas_or : ℤ → Option ℤ → ℤ
replicas_or held none = held
replicas_or held (some replicas) = replicas

module _ {Value : Type 0} (texts : Texts Value) (fl : FloatOps) (at : Positions) where
  module _ (name : String) (prov : Provenance) where
    -- The body of the loop over the services of a file, at their positions.
    unfoldable pub overlaid_service :
        ServiceOverlay → ServiceRecord × Service → ServiceRecord × Service
    unfolding replicas_or
    overlaid_service item both =
        let (target, model_target) = merge_service_metadata fl both item in
        (
          record target {
            provenance = target.provenance ++ (prov ∷ []);
            replicas = replicas_or target.replicas item.replicas;
          },
          record model_target { replicas = replicas_or model_target.replicas item.replicas },
        )

    unfoldable pub apply_service : ServiceOverlay → Layers → Result OverlayError Layers
    apply_service item l =
        at_positions (found (lookup item.id at.services) (unknown_service name item.id))
          (found (lookup item.id at.model_services) (unknown_model_service name item.id))
          (λ i j.
            let merged = merge_at (overlaid_service item) i j l.services l.model_services in
            record l { services = merged.0; model_services = merged.1 })

    unfoldable pub overlaid_edge : EdgeOverlay → EdgeRecord × Edge → EdgeRecord × Edge
    overlaid_edge item both =
        let (target, model_target) = merge_edge_metadata fl both item in
        (record target { provenance = target.provenance ++ (prov ∷ []) }, model_target)

    unfoldable pub apply_edge : EdgeOverlay → Layers → Result OverlayError Layers
    apply_edge item l =
        at_positions
          (edge_position at.edges at.legacy item.id (ambiguous_edge name item.id)
            (unknown_edge name item.id))
          (edge_position at.model_edges at.model_legacy item.id (ambiguous_model_edge name item.id)
            (unknown_model_edge name item.id))
          (λ i j.
            let merged = merge_at (overlaid_edge item) i j l.edges l.model_edges in
            record l { edges = merged.0; model_edges = merged.1 })

    unfoldable pub overlaid_endpoint :
        EndpointOverlay → EndpointRecord × Endpoint → EndpointRecord × Endpoint
    overlaid_endpoint item both =
        let (target, model_target) = merge_endpoint_metadata fl texts both item in
        (record target { provenance = target.provenance ++ (prov ∷ []) }, model_target)

    unfoldable pub apply_endpoint : EndpointOverlay → Layers → Result OverlayError Layers
    apply_endpoint item l =
        at_positions (found (lookup item.id at.endpoints) (unknown_endpoint name item.id))
          (found (lookup item.id at.model_endpoints) (unknown_model_endpoint name item.id))
          (λ i j.
            let merged = merge_at (overlaid_endpoint item) i j l.endpoints l.model_endpoints in
            record l { endpoints = merged.0; model_endpoints = merged.1 })

  unfoldable pub provenance_of : File → ℤ → Provenance
  provenance_of f precedence = record {
    type = "overlay";
    connector = "";
    name = f.name;
    ref = f.ref;
    precedence = precedence;
  }

  -- The body of the loop over the overlays, of the one with the given precedence.
  unfoldable pub apply_overlay : ℤ → File → Layers → Result OverlayError Layers
  unfolding provenance_of
  apply_overlay precedence f l =
      let prov = provenance_of f precedence in
      validate_observation_overlay f >> each (apply_service f.name prov) f.services l >>= λ l'.
      each (apply_edge f.name prov) f.edges l' >>= λ l''.
      each (apply_endpoint f.name prov) f.endpoints l''

  unfoldable pub apply_loop : ℤ → List File → Layers → Result OverlayError Layers
  apply_loop before [] l = ok l
  apply_loop before (f ∷ files) l =
      let precedence = Int.add before (pos 1) in
      apply_overlay precedence f l >>= λ l'. apply_loop precedence files l'

unfoldable pub applications_from : ℤ → List File → List OverlayApplication
applications_from before [] = []
applications_from before (f ∷ files) =
    let precedence = Int.add before (pos 1) in
    record { name = f.name; ref = f.ref; precedence = precedence }
    ∷ applications_from precedence files

unfoldable pub apply_overlays :
    {Value : Type 0}
    → Texts Value
    → FloatOps
    → Layers
    → List File
    → Result OverlayError (Layers × List OverlayApplication)
unfolding applications_from
apply_overlays texts fl l files = apply_loop texts fl (positions_of l) (pos 0) files l >>= λ l'.
    ok (l', applications_from (pos 0) files)
