-- ===== src/Reconciliation/Projection/Integrity.antt =====
-- engine.go: `buildProjection` and the references between the parts of what it publishes.
use bering.Prelude.{
  String, ◌≡◌, refl, sym, subst, Bool, Option, none, some, List, [], ◌∷◌, map, arith, All, All-map,
  Bool-cases, inl, inr,
}
use bering.Go.Float.{FloatOps}
use bering.Go.Map.{Map}
use bering.Model.Types.{Service, Edge, Endpoint}
use bering.Model.Normalize.Resolution.{sort_deterministic-HasIntegrity}
use bering.Model.Integrity.{Names, Enters, HasIntegrity}
use bering.Snapshot.Types.{ServiceRecord, EdgeRecord, EndpointRecord}
use bering.Reconciliation.Types.{Observation, EntityState, PersistedState}
use bering.Reconciliation.Selection.{
  select_service, select_services, select_edge, select_edges, select_endpoint, select_endpoints,
}
use bering.Reconciliation.Projection.{External, projected}

-- A state of a service is filed under the name of the service that it holds.
abbrev pub IsFiled : EntityState → Option Service → Type 0
IsFiled s none = Unit
IsFiled s (some item) = item.id ≡ s.id

abbrev pub IsConsistent : Map EntityState → Type 0
IsConsistent = All (λ (_, s). IsFiled s s.service)

abbrev Chosen : Type 0
Chosen = String × Service × ServiceRecord

select_service-same_id :
    (s : EntityState) (o : Option Service) (r : Option ServiceRecord) (rest : List Chosen)
    → IsFiled s o
    → All (λ (e : Chosen). e.1.id ≡ e.0) rest
    → All (λ (e : Chosen). e.1.id ≡ e.0) (select_service s o r rest)
unfolding select_service
select_service-same_id s none r rest f h = h
select_service-same_id s (some item) none rest f h = h
select_service-same_id s (some item) (some r) rest f h = (f, h)

select_services-same_id :
    (include : EntityState → Bool) (bucket : Map EntityState)
    → IsConsistent bucket
    → All (λ (e : Chosen). e.1.id ≡ e.0) (select_services include bucket)
unfolding select_services
select_services-same_id include [] c = tt
select_services-same_id include ((k, s) ∷ bucket) c = elim (Bool-cases (include s)) [
  | inl taken ↦ rw taken (
      select_service-same_id s s.service s.service_record _ c.0
        (select_services-same_id include bucket c.1))
  | inr left ↦ rw left (select_services-same_id include bucket c.1)
]

names_agree :
    (es : List Chosen)
    → All (λ (e : Chosen). e.1.id ≡ e.0) es
    → map (λ (s : Service). s.id) (map (λ (e : Chosen). e.1) es) ≡ map (λ (e : Chosen). e.0) es
names_agree [] h = refl
names_agree (e ∷ es) h = rw (h.0, names_agree es h.1)

select_edge-Names :
    (ids : List String) (o : Option Edge) (r : Option EdgeRecord) (rest : List (Edge × EdgeRecord))
    → All (λ (e : Edge × EdgeRecord). Names ids e.0) rest
    → All (λ (e : Edge × EdgeRecord). Names ids e.0) (select_edge ids o r rest)
unfolding select_edge
select_edge-Names ids none r rest h = h
select_edge-Names ids (some item) none rest h = h
select_edge-Names ids (some item) (some r) rest h = ground arith

select_edges-Names :
    (include : EntityState → Bool) (ids : List String) (bucket : Map EntityState)
    → All (λ (e : Edge × EdgeRecord). Names ids e.0) (select_edges include ids bucket)
unfolding select_edges
select_edges-Names include ids [] = tt
select_edges-Names include ids ((k, s) ∷ bucket) = elim (Bool-cases (include s)) [
  | inl taken ↦
      rw taken
        (select_edge-Names ids s.edge s.edge_record _ (select_edges-Names include ids bucket))
  | inr left ↦ rw left (select_edges-Names include ids bucket)
]

select_endpoint-Enters :
    (ids : List String) (o : Option Endpoint) (r : Option EndpointRecord)
    (rest : List (Endpoint × EndpointRecord))
    → All (λ (e : Endpoint × EndpointRecord). Enters ids e.0) rest
    → All (λ (e : Endpoint × EndpointRecord). Enters ids e.0) (select_endpoint ids o r rest)
unfolding select_endpoint
select_endpoint-Enters ids none r rest h = h
select_endpoint-Enters ids (some item) none rest h = h
select_endpoint-Enters ids (some item) (some r) rest h = ground arith

select_endpoints-Enters :
    (include : EntityState → Bool) (ids : List String) (bucket : Map EntityState)
    → All (λ (e : Endpoint × EndpointRecord). Enters ids e.0) (select_endpoints include ids bucket)
unfolding select_endpoints
select_endpoints-Enters include ids [] = tt
select_endpoints-Enters include ids ((k, s) ∷ bucket) = elim (Bool-cases (include s)) [
  | inl taken ↦ rw taken (
      select_endpoint-Enters ids s.endpoint s.endpoint_record _
        (select_endpoints-Enters include ids bucket))
  | inr left ↦ rw left (select_endpoints-Enters include ids bucket)
]

module _ (fl : FloatOps) where
  -- Whatever test chooses the entities: a projection holds both services of each of its edges, and
  -- the entry service of each of its endpoints, if the retained services are filed under their names.
  pub projected-HasIntegrity :
      (ext : External) (state : PersistedState) (obs : Observation) (include : EntityState → Bool)
      → IsConsistent state.services
      → HasIntegrity (projected ext fl state obs include).model
  unfolding projected
  projected-HasIntegrity ext state obs include c =
      let chosen = select_services include state.services in
      let set = map (λ (e : Chosen). e.0) chosen in
      let agree = names_agree chosen (select_services-same_id include state.services c) in
      let edges = select_edges include set state.edges in
      let endpoints = select_endpoints include set state.endpoints in
      sort_deterministic-HasIntegrity fl _ (record {
        edges =
            subst
              (λ (ids : List String). All (Names ids) (map (λ (e : Edge × EdgeRecord). e.0) edges))
              (sym agree)
              (All-map (Names set) (λ (e : Edge × EdgeRecord). e.0) edges
                (select_edges-Names include set state.edges));
        endpoints =
            subst
              (λ (ids : List String).
                All (Enters ids) (map (λ (e : Endpoint × EndpointRecord). e.0) endpoints))
              (sym agree)
              (All-map (Enters set) (λ (e : Endpoint × EndpointRecord). e.0) endpoints
                (select_endpoints-Enters include set state.endpoints));
      })
