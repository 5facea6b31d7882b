-- ===== src/Reconciliation/Index/Naming.antt =====
-- types.go: `buildObservationIndex` and the names under which it files services.
use bering.Prelude.{String, ◌≡◌, refl, Option, none, some, List, [], ◌∷◌, All, ◌∙◌}
use bering.Go.Map.{by_key, Map, lookup, All-put}
use bering.Model.Types.{Service, Edge, Endpoint}
use bering.Snapshot.Types.{ServiceRecord, EdgeRecord, EndpointRecord}
use bering.Reconciliation.Types.{Observation, EntitySnapshot}
use bering.Reconciliation.Index.{
  ObservationIndex, build_observation_index, index_service, index_services, index_edge, index_edges,
  index_endpoint, index_endpoints, empty_index,
}

-- A service that is held under a name has it.
abbrev pub IsNamed : String → Option Service → Type 0
IsNamed k none = Unit
IsNamed k (some item) = item.id ≡ k

abbrev pub Shows : String × EntitySnapshot → Type 0
Shows (k, snapshot) = IsNamed k snapshot.service

index_service-Shows :
    (item : Service) (o : Option ServiceRecord) (index : ObservationIndex)
    → All Shows index.services
    → All Shows (index_service item o index).services
unfolding index_service
index_service-Shows item none index h = h
index_service-Shows item (some r) index h = All-put Shows item.id _ index.services refl h

index_services-Shows :
    (records : Map ServiceRecord) (items : List Service) (index : ObservationIndex)
    → All Shows index.services
    → All Shows (index_services records items index).services
unfolding index_services
index_services-Shows records [] index h = h
index_services-Shows records (item ∷ rest) index h =
    index_services-Shows records rest (index_service item (lookup item.id records) index)
      (index_service-Shows item (lookup item.id records) index h)

index_endpoint-services :
    (r : EndpointRecord) (o : Option Endpoint) (index : ObservationIndex)
    → (index_endpoint r o index).services ≡ index.services
unfolding index_endpoint
index_endpoint-services r none index = refl
index_endpoint-services r (some item) index = refl

index_endpoints-services :
    (items : Map Endpoint) (rs : List EndpointRecord) (index : ObservationIndex)
    → (index_endpoints items rs index).services ≡ index.services
unfolding index_endpoints
index_endpoints-services items [] index = refl
index_endpoints-services items (r ∷ rs) index =
    index_endpoints-services items rs (index_endpoint r (lookup r.id items) index)
    ∙ index_endpoint-services r (lookup r.id items) index

index_edge-services :
    (r : EdgeRecord) (o : Option Edge) (index : ObservationIndex)
    → (index_edge r o index).services ≡ index.services
unfolding index_edge
index_edge-services r none index = refl
index_edge-services r (some item) index = refl

index_edges-services :
    (items : Map Edge) (rs : List EdgeRecord) (index : ObservationIndex)
    → (index_edges items rs index).services ≡ index.services
unfolding index_edges
index_edges-services items [] index = refl
index_edges-services items (r ∷ rs) index =
    index_edges-services items rs (index_edge r (lookup r.id items) index)
    ∙ index_edge-services r (lookup r.id items) index

pub build_observation_index-Shows :
    (obs : Observation) → All Shows (build_observation_index obs).services
unfolding build_observation_index
build_observation_index-Shows obs =
    rw (index_edges-services, index_endpoints-services)
      (index_services-Shows (by_key (λ r. r.id) [] obs.result.discovery.services)
        obs.result.model.services empty_index tt)
