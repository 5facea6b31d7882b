-- ===== src/Discovery/Overlays/Identity.antt =====
-- internal/discovery/discovery.go, `applyOverlays`: what no overlay changes.
use bering.Prelude.{
  ok_inj, String, ◌≡◌, refl, subst, List, [], ◌∷◌, ok, ◌>>=◌, ◌>>◌, >>=-eq-ok, >>-eq-ok_iff,
}
use bering.Go.Int.{ℤ, pos, add}
use bering.Go.Float.{FloatOps}
use bering.Model.Types.{Service, Edge, Endpoint}
use bering.Snapshot.Types.{
  Provenance, OverlayApplication, ServiceRecord, EdgeRecord, EndpointRecord,
}
use bering.Overlay.Types.{ServiceOverlay, EdgeOverlay, EndpointOverlay, File}
use bering.Discovery.Attributes.{Texts}
use bering.Discovery.Positions.{Layers, Positions, positions_of}
use bering.Discovery.Merge.{merge_service_metadata, merge_edge_metadata, merge_endpoint_metadata}
use bering.Discovery.Overlays.{
  each, overlaid_service, apply_service, overlaid_edge, apply_edge, overlaid_endpoint,
  apply_endpoint, apply_overlay, apply_loop, apply_overlays, provenance_of, applications_from,
  validate_observation_overlay,
}
use bering.Discovery.Overlays.Keys.{
  edge_key, edge_record_key, endpoint_key, endpoint_record_key, Keeps, Keeps-refl, Keeps-trans,
  with_services-Keeps, with_edges-Keeps, with_endpoints-Keeps, merge_at-keys, each-Keeps,
  at_positions_lem,
}

module _ {Value : Type 0} (texts : Texts Value) (fl : FloatOps) (at : Positions) where
  module _ (name : String) (prov : Provenance) where
    overlaid_service_lem :
        (item : ServiceOverlay) (p : ServiceRecord × Service)
        → ((overlaid_service texts fl at name prov item p).0.id ≡ p.0.id)
          × ((overlaid_service texts fl at name prov item p).1.id ≡ p.1.id)
    unfolding overlaid_service merge_service_metadata
    overlaid_service_lem item (target, model_target) = (refl, refl)

    apply_service-Keeps :
        (item : ServiceOverlay) (l l' : Layers)
        → apply_service texts fl at name prov item l ≡ ok l'
        → Keeps l l'
    unfolding apply_service
    apply_service-Keeps item l l' returned =
        at_positions_lem (Keeps l) _ _ _
          (λ i j.
            let (records, models) =
              merge_at-keys (overlaid_service texts fl at name prov item) (λ r. r.id) (λ s. s.id) i
                j l.services l.model_services (overlaid_service_lem item) in
            with_services-Keeps l _ _ records models)
          returned

    overlaid_edge_lem :
        (item : EdgeOverlay) (p : EdgeRecord × Edge)
        → (edge_record_key (overlaid_edge texts fl at name prov item p).0 ≡ edge_record_key p.0)
          × (edge_key (overlaid_edge texts fl at name prov item p).1 ≡ edge_key p.1)
    unfolding overlaid_edge merge_edge_metadata
    overlaid_edge_lem item (target, model_target) = (refl, refl)

    apply_edge-Keeps :
        (item : EdgeOverlay) (l l' : Layers)
        → apply_edge texts fl at name prov item l ≡ ok l'
        → Keeps l l'
    unfolding apply_edge
    apply_edge-Keeps item l l' returned =
        at_positions_lem (Keeps l) _ _ _
          (λ i j.
            let (records, models) =
              merge_at-keys (overlaid_edge texts fl at name prov item) edge_record_key edge_key i j
                l.edges l.model_edges (overlaid_edge_lem item) in
            with_edges-Keeps l _ _ records models)
          returned

    overlaid_endpoint_lem :
        (item : EndpointOverlay) (p : EndpointRecord × Endpoint)
        → (endpoint_record_key (overlaid_endpoint texts fl at name prov item p).0
            ≡ endpoint_record_key p.0)
          × (endpoint_key (overlaid_endpoint texts fl at name prov item p).1 ≡ endpoint_key p.1)
    unfolding overlaid_endpoint merge_endpoint_metadata
    overlaid_endpoint_lem item (target, model_target) = (refl, refl)

    apply_endpoint-Keeps :
        (item : EndpointOverlay) (l l' : Layers)
        → apply_endpoint texts fl at name prov item l ≡ ok l'
        → Keeps l l'
    unfolding apply_endpoint
    apply_endpoint-Keeps item l l' returned =
        at_positions_lem (Keeps l) _ _ _
          (λ i j.
            let (records, models) =
              merge_at-keys (overlaid_endpoint texts fl at name prov item) endpoint_record_key
                endpoint_key i j l.endpoints l.model_endpoints (overlaid_endpoint_lem item) in
            with_endpoints-Keeps l _ _ records models)
          returned

  apply_overlay-Keeps :
      (precedence : ℤ) (f : File) (l l' : Layers)
      → apply_overlay texts fl at precedence f l ≡ ok l'
      → Keeps l l'
  unfolding apply_overlay
  apply_overlay-Keeps precedence f l l' returned =
      let prov = provenance_of texts fl at f precedence in
      let (l1, checked, rest) =
        >>=-eq-ok
          (validate_observation_overlay f
            >> each (apply_service texts fl at f.name prov) f.services l)
          (λ l1. each (apply_edge texts fl at f.name prov) f.edges l1 >>= λ l2.
            each (apply_endpoint texts fl at f.name prov) f.endpoints l2)
          returned in
      let (l2, edges, endpoints) =
        >>=-eq-ok (each (apply_edge texts fl at f.name prov) f.edges l1)
          (λ l2. each (apply_endpoint texts fl at f.name prov) f.endpoints l2) rest in
      let services = ((>>-eq-ok_iff (validate_observation_overlay f) _).0 checked).1 in
      Keeps-trans l l1 l' (each-Keeps _ f.services l (apply_service-Keeps f.name _) services) (
        Keeps-trans l1 l2 l' (each-Keeps _ f.edges l1 (apply_edge-Keeps f.name _) edges)
          (each-Keeps _ f.endpoints l2 (apply_endpoint-Keeps f.name _) endpoints))

  apply_loop-Keeps :
      (before : ℤ) (files : List File) (l l' : Layers)
      → apply_loop texts fl at before files l ≡ ok l'
      → Keeps l l'
  unfolding apply_loop
  apply_loop-Keeps before [] l l' returned =
      subst (λ (m : Layers). Keeps l m) (ok_inj returned) (Keeps-refl l)
  apply_loop-Keeps before (f ∷ files) l l' returned =
      let (mid, applied, rest) =
        >>=-eq-ok (apply_overlay texts fl at (add before (pos 1)) f l)
          (λ m. apply_loop texts fl at (add before (pos 1)) files m) returned in
      Keeps-trans l mid l' (apply_overlay-Keeps _ f l mid applied)
        (apply_loop-Keeps (add before (pos 1)) files mid l' rest)

-- Overlays add, drop, rename and move nothing: whenever they can be applied, the services, the
-- edges and the endpoints, in the records and in the model, keep their identifiers and their order,
-- the edges what they join and how, and the endpoints the services that they enter.
pub apply_overlays-Keeps :
    {Value : Type 0} (texts : Texts Value) (fl : FloatOps) (l : Layers) (files : List File)
    (after : Layers) (applications : List OverlayApplication)
    → apply_overlays texts fl l files ≡ ok (after, applications)
    → Keeps l after
unfolding apply_overlays
apply_overlays-Keeps texts fl l files after applications returned =
    let (l', looped, last) =
      >>=-eq-ok (apply_loop texts fl (positions_of l) (pos 0) files l)
        (λ m. ok (m, applications_from (pos 0) files)) returned in
    let same : l' ≡ after = cc in
    subst (λ (m : Layers). Keeps l m) same (apply_loop-Keeps texts fl _ _ files l l' looped)
