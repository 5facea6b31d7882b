-- ===== src/Snapshot/Diff/Balance.antt =====
-- snapshot.go: the counts of a diff against the records that they count.
use bering.Prelude.{◌≡◌, true, false, Bool, Option, none, some, All, String}
use bering.Go.Int.{pos}
use bering.Go.Map.{Map, lookup, has}
use bering.Snapshot.Types.{DiffSummary, Envelope}
use bering.Snapshot.Diff.Names.{IsDiff, by_key-IsDiff}
use bering.Snapshot.Diff.{DeepEqual, service_map, edge_map, endpoint_map, compute_diff}

module _ {V : Type 0} where
  -- The second map has an equal value under the key.
  abbrev has_equal : (V → V → Bool) → V → Option V → Bool
  has_equal equal v none = false
  has_equal equal v (some w) = equal v w

  abbrev pub IsSame : (V → V → Bool) → Map V → Map V → Type 0
  IsSame equal left right =
      All (λ (e : String × V). has_equal equal e.1 (lookup e.0 right) ≡ true) left
      × All (λ (e : String × V). has e.0 left ≡ true) right

module _ (equal : DeepEqual) (previous current : Envelope) where
  -- The counts of `ComputeDiff` against a previous envelope, for services, edges and endpoints: the
  -- added ones are the names that only the current envelope has, the removed ones those that only the
  -- previous one has, and the changed ones those under which both have records, the last of which are
  -- not equal; each name is counted once.
  pub compute_diff-IsDiff :
      let d = compute_diff equal (some previous) current in
      let p = previous.discovery in
      let c = current.discovery in
      IsDiff
        (λ r. r.id)
        equal.service
        p.services
        c.services
        d.added_services
        d.removed_services
        d.changed_services
      × IsDiff (λ r. r.id) equal.edge p.edges c.edges d.added_edges d.removed_edges d.changed_edges
      × IsDiff
          (λ r. r.id)
          equal.endpoint
          p.endpoints
          c.endpoints
          d.added_endpoints
          d.removed_endpoints
          d.changed_endpoints
  unfolding compute_diff service_map edge_map endpoint_map
  compute_diff-IsDiff = (
    by_key-IsDiff _ equal.service previous.discovery.services current.discovery.services,
    by_key-IsDiff _ equal.edge previous.discovery.edges current.discovery.edges,
    by_key-IsDiff _ equal.endpoint previous.discovery.endpoints current.discovery.endpoints,
  )

  abbrev pub IsEmptyDiff : DiffSummary → Type 0
  IsEmptyDiff d =
      ((d.added_services ≡ pos 0) × (d.removed_services ≡ pos 0) × (d.changed_services ≡ pos 0))
      × ((d.added_edges ≡ pos 0) × (d.removed_edges ≡ pos 0) × (d.changed_edges ≡ pos 0))
      × ((d.added_endpoints ≡ pos 0)
          × (d.removed_endpoints ≡ pos 0)
          × (d.changed_endpoints ≡ pos 0))
