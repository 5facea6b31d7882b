-- ===== src/Reconciliation/Selection.antt =====
-- internal/reconciliation/engine.go: the loops of `buildProjection` that choose the entities.
use bering.Prelude.{String, Bool, ◌&&◌, Option, some, List, [], ◌∷◌, if◌then◌else◌}
use bering.Go.Map.{Map, contains}
use bering.Model.Types.{Service, Edge, Endpoint}
use bering.Snapshot.Types.{ServiceRecord, EdgeRecord, EndpointRecord}
use bering.Reconciliation.Types.{EntityState}

-- The entities that a projection takes: a service whose state passes the test, with its record.
unfoldable pub select_service :
    EntityState
    → Option Service
    → Option ServiceRecord
    → List (String × Service × ServiceRecord)
    → List (String × Service × ServiceRecord)
select_service s (some item) (some r) rest = (s.id, item, r) ∷ rest
select_service s _ _ rest = rest

abbrev known : List String → String → Bool
known service_set id = contains service_set id

unfoldable pub select_edge :
    List String
    → Option Edge
    → Option EdgeRecord
    → List (Edge × EdgeRecord)
    → List (Edge × EdgeRecord)
select_edge service_set (some item) (some r) rest =
    if known service_set item.from && known service_set item.to then (item, r) ∷ rest else rest
select_edge service_set _ _ rest = rest

unfoldable pub select_endpoint :
    List String
    → Option Endpoint
    → Option EndpointRecord
    → List (Endpoint × EndpointRecord)
    → List (Endpoint × EndpointRecord)
select_endpoint service_set (some item) (some r) rest =
    if known service_set item.entry_service then (item, r) ∷ rest else rest
select_endpoint service_set _ _ rest = rest

unfoldable pub select_services :
    (EntityState → Bool) → Map EntityState → List (String × Service × ServiceRecord)
unfolding select_service
select_services include [] = []
select_services include ((_, s) ∷ bucket) =
    let rest = select_services include bucket in
    if include s then select_service s s.service s.service_record rest else rest

unfoldable pub select_edges :
    (EntityState → Bool) → List String → Map EntityState → List (Edge × EdgeRecord)
unfolding select_edge
select_edges include service_set [] = []
select_edges include service_set ((_, s) ∷ bucket) =
    let rest = select_edges include service_set bucket in
    if include s then select_edge service_set s.edge s.edge_record rest else rest

unfoldable pub select_endpoints :
    (EntityState → Bool) → List String → Map EntityState → List (Endpoint × EndpointRecord)
unfolding select_endpoint
select_endpoints include service_set [] = []
select_endpoints include service_set ((_, s) ∷ bucket) =
    let rest = select_endpoints include service_set bucket in
    if include s then select_endpoint service_set s.endpoint s.endpoint_record rest else rest
