-- ===== src/Reconciliation/Index.antt =====
-- internal/reconciliation/types.go: `buildObservationIndex` and `edgeIdentity`; engine.go: the
-- opportunities of an entity to be seen in the current window.
pub mod Naming
use bering.Prelude.{String, not, Option, none, some, List, [], ◌∷◌, ◌==◌, if◌then◌else◌}
use bering.Go.Int
use bering.Go.Int.{ℤ, pos}
use bering.Go.Text.{trim_space, is_blank}
use bering.Go.Map.{Map, lookup, put, by_key}
use bering.Model.Types.{Service, Edge, Endpoint}
use bering.Model.Normalize.Texts.{edge_id_with_identity}
use bering.Snapshot.Types.{ServiceRecord, EdgeRecord, EndpointRecord}
use bering.Reconciliation.Types.{
  Kind, service, edge, endpoint, Observation, EntitySnapshot, EntityState, PersistedState,
}

unfoldable pub edge_identity : Edge → String
edge_identity e =
    if not (is_blank (trim_space e.id))
    then e.id
    else edge_id_with_identity e.from e.to e.kind e.blocking e.identity

pub record ObservationIndex : Type 0 where
  pub services : Map EntitySnapshot
  pub edges : Map EntitySnapshot
  pub endpoints : Map EntitySnapshot
  pub service_support : Map ℤ
  pub service_opportunity : Map ℤ
  pub edge_opportunity : Map ℤ
  pub endpoint_opportunity : Map ℤ

abbrev empty_index : ObservationIndex
empty_index = record {
  services = [];
  edges = [];
  endpoints = [];
  service_support = [];
  service_opportunity = [];
  edge_opportunity = [];
  endpoint_opportunity = [];
}

-- `m[k]` of a `map[string]int`: 0 for a missing key.
unfoldable pub count_of : Map ℤ → String → ℤ
count_of m k = elim (lookup k m) [ none ↦ pos 0 | some n ↦ n ]

-- `m[k] += n`
unfoldable pub add_count : String → ℤ → Map ℤ → Map ℤ
unfolding count_of
add_count k n m = put k (Int.add (count_of m k) n) m

abbrev blank_snapshot : Kind → String → EntitySnapshot
blank_snapshot kind id = record {
  kind = kind;
  id = id;
  service = none;
  edge = none;
  endpoint = none;
  service_record = none;
  edge_record = none;
  endpoint_record = none;
}

index_service : Service → Option ServiceRecord → ObservationIndex → ObservationIndex
index_service item none index = index
index_service item (some r) index = record index {
  services =
      put item.id
        (record (blank_snapshot service item.id) { service = some item; service_record = some r })
        index.services;
  service_support = put item.id r.support.observations index.service_support;
}

index_services : Map ServiceRecord → List Service → ObservationIndex → ObservationIndex
unfolding index_service
index_services records [] index = index
index_services records (item ∷ rest) index =
    index_services records rest (index_service item (lookup item.id records) index)

index_endpoint : EndpointRecord → Option Endpoint → ObservationIndex → ObservationIndex
index_endpoint r none index = index
index_endpoint r (some item) index = record index {
  endpoints =
      put r.id
        (record (blank_snapshot endpoint r.id) { endpoint = some item; endpoint_record = some r })
        index.endpoints;
  endpoint_opportunity = put r.id r.support.observations index.endpoint_opportunity;
  service_opportunity = add_count r.entry_service r.support.observations index.service_opportunity;
}

index_endpoints : Map Endpoint → List EndpointRecord → ObservationIndex → ObservationIndex
unfolding index_endpoint
index_endpoints items [] index = index
index_endpoints items (r ∷ rest) index =
    index_endpoints items rest (index_endpoint r (lookup r.id items) index)

index_edge : EdgeRecord → Option Edge → ObservationIndex → ObservationIndex
index_edge r none index = index
index_edge r (some item) index = record index {
  edges =
      put r.id (record (blank_snapshot edge r.id) { edge = some item; edge_record = some r })
        index.edges;
  edge_opportunity = put r.id (count_of index.service_support r.from) index.edge_opportunity;
  service_opportunity =
      add_count r.to r.support.observations
        (add_count r.from r.support.observations index.service_opportunity);
}

index_edges : Map Edge → List EdgeRecord → ObservationIndex → ObservationIndex
unfolding index_edge
index_edges items [] index = index
index_edges items (r ∷ rest) index = index_edges items rest (index_edge r (lookup r.id items) index)

-- The last loop: each service's own support is an opportunity to see it.
add_support : Map ℤ → Map ℤ → Map ℤ
add_support [] opportunity = opportunity
add_support ((id, count) ∷ rest) opportunity = add_support rest (add_count id count opportunity)

unfoldable pub build_observation_index : Observation → ObservationIndex
unfolding by_key index_services index_endpoints index_edges add_support
build_observation_index obs =
    let m = obs.result.model in
    let d = obs.result.discovery in
    let services = index_services (by_key (λ r. r.id) [] d.services) m.services empty_index in
    let endpoints = index_endpoints (by_key (λ e. e.id) [] m.endpoints) d.endpoints services in
    let edges = index_edges (by_key edge_identity [] m.edges) d.edges endpoints in
    record edges {
      service_opportunity = add_support edges.service_support edges.service_opportunity;
    }

-- What one edge adds to the opportunity of a service: the service's own support if the edge leaves
-- it, and the caller's support if the edge enters it.
edge_adds : ObservationIndex → String → Option Edge → ℤ → ℤ
edge_adds index id none n = n
edge_adds index id (some e) n =
    let n' = if e.from == id then Int.add n (count_of index.service_support id) else n in
    if e.to == id then Int.add n' (count_of index.service_support e.from) else n'

edges_add : ObservationIndex → String → Map EntityState → ℤ → ℤ
edges_add index id [] n = n
edges_add index id ((_, s) ∷ rest) n = edges_add index id rest (edge_adds index id s.edge n)

unfoldable pub service_opportunity : PersistedState → ObservationIndex → String → ℤ
unfolding edges_add edge_adds
service_opportunity state index id =
    edges_add index id state.edges (count_of index.service_opportunity id)

caller_support : ObservationIndex → Option EntityState → ℤ
caller_support index none = pos 0
caller_support index (some s) = elim s.edge [
  | none ↦ pos 0
  | some e ↦ count_of index.service_support e.from
]

unfoldable pub edge_opportunity : PersistedState → ObservationIndex → String → ℤ
unfolding caller_support
edge_opportunity state index id =
    let count = count_of index.edge_opportunity id in
    if Int.lt (pos 0) count then count else caller_support index (lookup id state.edges)

entry_support : ObservationIndex → Option EntityState → ℤ
entry_support index none = pos 0
entry_support index (some s) = elim s.endpoint_record [
  | none ↦ pos 0
  | some r ↦ count_of index.service_support r.entry_service
]

unfoldable pub endpoint_opportunity : PersistedState → ObservationIndex → String → ℤ
unfolding entry_support
endpoint_opportunity state index id =
    let count = count_of index.endpoint_opportunity id in
    if Int.lt (pos 0) count then count else entry_support index (lookup id state.endpoints)
