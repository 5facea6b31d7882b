-- ===== src/Snapshot/Diff.antt =====
-- internal/snapshot/snapshot.go: `ComputeDiff` and its maps. `reflect.DeepEqual` is a parameter. A
-- count of entries is at most their number and so does not wrap.
pub mod Names
pub mod Balance
use bering.Prelude.{
  ℕ, suc, Bool, false, not, Option, none, some, List, [], ◌∷◌, length, if◌then◌else◌,
}
use bering.Go.Int.{pos}
use bering.Go.Map.{Map, lookup, has, by_key}
use bering.Snapshot.Types.{DiffSummary, ServiceRecord, EdgeRecord, EndpointRecord, Envelope}

-- `reflect.DeepEqual` at the types that the source compares.
pub record DeepEqual : Type 0 where
  pub service : ServiceRecord → ServiceRecord → Bool
  pub edge : EdgeRecord → EdgeRecord → Bool
  pub endpoint : EndpointRecord → EndpointRecord → Bool

unfoldable pub service_map : List ServiceRecord → Map ServiceRecord
service_map items = by_key (λ item. item.id) [] items

unfoldable pub edge_map : List EdgeRecord → Map EdgeRecord
edge_map items = by_key (λ item. item.id) [] items

unfoldable pub endpoint_map : List EndpointRecord → Map EndpointRecord
endpoint_map items = by_key (λ item. item.id) [] items

module _ {V : Type 0} where
  unfoldable pub diff_added : Map V → Map V → ℕ
  diff_added left [] = 0
  diff_added left ((key, _) ∷ right) =
      let count = diff_added left right in if has key left then count else suc count

  is_changed : (V → V → Bool) → V → Option V → Bool
  is_changed equal left none = false
  is_changed equal left (some right) = not (equal left right)

  unfoldable pub diff_changed : (V → V → Bool) → Map V → Map V → ℕ
  unfolding is_changed
  diff_changed equal [] right = 0
  diff_changed equal ((key, value) ∷ left) right =
      let count = diff_changed equal left right in
      if is_changed equal value (lookup key right) then suc count else count

module _ (equal : DeepEqual) where
  unfoldable pub compute_diff : Option Envelope → Envelope → DiffSummary
  unfolding service_map edge_map endpoint_map
  compute_diff none current = record {
    added_services = pos (length current.discovery.services);
    removed_services = pos 0;
    changed_services = pos 0;
    added_edges = pos (length current.discovery.edges);
    removed_edges = pos 0;
    changed_edges = pos 0;
    added_endpoints = pos (length current.discovery.endpoints);
    removed_endpoints = pos 0;
    changed_endpoints = pos 0;
  }
  compute_diff (some previous) current =
      let services = service_map previous.discovery.services in
      let services' = service_map current.discovery.services in
      let edges = edge_map previous.discovery.edges in
      let edges' = edge_map current.discovery.edges in
      let endpoints = endpoint_map previous.discovery.endpoints in
      let endpoints' = endpoint_map current.discovery.endpoints in
      record {
        added_services = pos (diff_added services services');
        removed_services = pos (diff_added services' services);
        changed_services = pos (diff_changed equal.service services services');
        added_edges = pos (diff_added edges edges');
        removed_edges = pos (diff_added edges' edges);
        changed_edges = pos (diff_changed equal.edge edges edges');
        added_endpoints = pos (diff_added endpoints endpoints');
        removed_endpoints = pos (diff_added endpoints' endpoints);
        changed_endpoints = pos (diff_changed equal.endpoint endpoints endpoints');
      }
