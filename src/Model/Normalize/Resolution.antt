-- ===== src/Model/Normalize/Resolution.antt =====
-- internal/model/model.go: `SortDeterministic` and the references between the parts of a model.
use bering.Prelude.{String, ◌≡◌, refl, ap, ◌∙◌, List, [], ◌∷◌, map, All, All-map, All-imp}
use bering.Go.Float.{FloatOps}
use bering.Go.Map.{contains}
use bering.Go.Sort.{All-sort, contains-sort}
use bering.Model.Types.{Service, ResilienceModel}
use bering.Model.Normalize.Sort.{
  sort_deterministic, normalize_service, normalize_edge, normalize_endpoint, service_less,
  edge_less, endpoint_less,
}
use bering.Go.Text.{trim_space}
use bering.Model.Normalize.Targets.{normalize_endpoint-Targets}
use bering.Model.Integrity.{
  Names, Enters, HasIntegrity, IsTarget, Targets, mandatory_targets, IsResolved,
}

module _ (fl : FloatOps) where
  id-normalize :
      (xs : List Service) → map (λ s. s.id) (map (normalize_service fl) xs) ≡ map (λ s. s.id) xs
  unfolding normalize_service
  id-normalize [] = refl
  id-normalize (x ∷ xs) = rw (id-normalize xs)

  -- The normal form of a model names the services that the model names.
  names-sort_deterministic :
      (m : ResilienceModel) (k : String)
      → contains (map (λ s. s.id) (sort_deterministic fl m).services) k
        ≡ contains (map (λ s. s.id) m.services) k
  unfolding sort_deterministic
  names-sort_deterministic m k =
      contains-sort (λ (s : Service). s.id) service_less k (map (normalize_service fl) m.services)
      ∙ ap (λ (l : List String). contains l k) (id-normalize m.services)

  edges-sort_deterministic :
      (ids ids' : List String) (m : ResilienceModel)
      → ((k : String) → contains ids' k ≡ contains ids k)
      → All (Names ids) m.edges
      → All (Names ids') (sort_deterministic fl m).edges
  unfolding sort_deterministic normalize_edge
  edges-sort_deterministic ids ids' m same h =
      All-sort (Names ids') edge_less (map (normalize_edge fl) m.edges) (
        All-map (Names ids') (normalize_edge fl) m.edges (
          All-imp (Names ids) (λ e. Names ids' (normalize_edge fl e)) m.edges
            (λ e n. (same e.from ∙ n.0, same e.to ∙ n.1)) h))

  endpoints-sort_deterministic :
      (ids ids' : List String) (m : ResilienceModel)
      → ((k : String) → contains ids' k ≡ contains ids k)
      → All (Enters ids) m.endpoints
      → All (Enters ids') (sort_deterministic fl m).endpoints
  unfolding sort_deterministic normalize_endpoint
  endpoints-sort_deterministic ids ids' m same h =
      All-sort (Enters ids') endpoint_less (map (normalize_endpoint fl) m.endpoints) (
        All-map (Enters ids') (normalize_endpoint fl) m.endpoints (
          All-imp (Enters ids) (λ e. Enters ids' (normalize_endpoint fl e)) m.endpoints
            (λ e n. same e.entry_service ∙ n) h))

  -- The ends of edges and the entry services.
  pub sort_deterministic-HasIntegrity :
      (m : ResilienceModel) → HasIntegrity m → HasIntegrity (sort_deterministic fl m)
  sort_deterministic-HasIntegrity m h =
      let ids = map (λ (s : Service). s.id) m.services in
      let ids' = map (λ (s : Service). s.id) (sort_deterministic fl m).services in
      record {
        edges = edges-sort_deterministic ids ids' m (names-sort_deterministic m) h.edges;
        endpoints =
            endpoints-sort_deterministic ids ids' m (names-sort_deterministic m) h.endpoints;
      }

  Targets-sort_deterministic :
      (ids ids' : List String) (m : ResilienceModel)
      → ((k : String) → contains ids' k ≡ contains ids k)
      → All (Targets ids) m.endpoints
      → All (Targets ids') (sort_deterministic fl m).endpoints
  unfolding sort_deterministic
  Targets-sort_deterministic ids ids' m same h =
      All-sort (Targets ids') endpoint_less (map (normalize_endpoint fl) m.endpoints) (
        All-map (Targets ids') (normalize_endpoint fl) m.endpoints (
          All-imp (Targets ids) (λ e. Targets ids' (normalize_endpoint fl e)) m.endpoints
            (λ e n. normalize_endpoint-Targets ids' fl e (
              All-imp (IsTarget ids) (IsTarget ids') (mandatory_targets e.metadata)
                (λ t is. same (trim_space t) ∙ is) n))
            h))

  -- `SortDeterministic` breaks no reference of a model to a service: neither the ends of the edges
  -- nor the entry services of the endpoints, nor their mandatory targets, which it trims.
  pub sort_deterministic-IsResolved :
      (m : ResilienceModel) → IsResolved m → IsResolved (sort_deterministic fl m)
  sort_deterministic-IsResolved m h = record {
    integrity = sort_deterministic-HasIntegrity m h.integrity;
    targets = Targets-sort_deterministic _ _ m (names-sort_deterministic m) h.targets;
  }
