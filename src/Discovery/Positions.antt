-- ===== src/Discovery/Positions.antt =====
-- internal/discovery/discovery.go: the slices that `applyOverlays` changes, and the maps from an
-- identifier to a position that it makes of them.
use bering.Prelude.{
  ℕ, zero, suc, String, Option, none, some, List, [], ◌∷◌, if◌then◌else◌, Result, ok, err, ◌>>◌,
  fail_if,
}
use bering.Go.Map.{Map, lookup, put, has, contains}
use bering.Model.Types.{Service, Edge, Endpoint}
use bering.Model.Validate.{edge_id}
use bering.Snapshot.Types.{ServiceRecord, EdgeRecord, EndpointRecord}

-- The slices that the overlays change.
pub record Layers : Type 0 where
  pub services : List ServiceRecord
  pub edges : List EdgeRecord
  pub endpoints : List EndpointRecord
  pub model_services : List Service
  pub model_edges : List Edge
  pub model_endpoints : List Endpoint

-- The maps `legacyEdgeIndex` and `ambiguousLegacyEdges`.
pub record Legacy : Type 0 where
  pub index : Map ℕ
  pub ambiguous : List String

-- `for i, item := range items { index[key(item)] = i }`
unfoldable pub positions {ℓ} : {A : Type ℓ} → (A → String) → ℕ → List A → Map ℕ → Map ℕ
positions key i [] index = index
positions key i (x ∷ xs) index = positions key (suc i) xs (put (key x) i index)

unfoldable pub note_legacy : String → ℕ → Legacy → Legacy
note_legacy id i l =
    if has id l.index
    then record l { ambiguous = id ∷ l.ambiguous }
    else record l { index = put id i l.index }

unfoldable pub legacy_positions {ℓ} : {A : Type ℓ} → (A → String) → ℕ → List A → Legacy → Legacy
legacy_positions id i [] l = l
legacy_positions id i (x ∷ xs) l = legacy_positions id (suc i) xs (note_legacy (id x) i l)

pub record Positions : Type 0 where
  pub services : Map ℕ
  pub model_services : Map ℕ
  pub edges : Map ℕ
  pub model_edges : Map ℕ
  pub legacy : Legacy
  pub model_legacy : Legacy
  pub endpoints : Map ℕ
  pub model_endpoints : Map ℕ

abbrev no_legacy : Legacy
no_legacy = record { index = []; ambiguous = [] }

unfoldable pub positions_of : Layers → Positions
positions_of l = record {
  services = positions (λ s. s.id) 0 l.services [];
  model_services = positions (λ s. s.id) 0 l.model_services [];
  edges = positions (λ e. e.id) 0 l.edges [];
  model_edges = positions (λ e. e.id) 0 l.model_edges [];
  legacy = legacy_positions (λ e. edge_id e.from e.to e.kind e.blocking) 0 l.edges no_legacy;
  model_legacy =
      legacy_positions (λ e. edge_id e.from e.to e.kind e.blocking) 0 l.model_edges no_legacy;
  endpoints = positions (λ e. e.id) 0 l.endpoints [];
  model_endpoints = positions (λ e. e.id) 0 l.model_endpoints [];
}

unfoldable pub found {ℓ κ} : {E : Type ℓ} {A : Type κ} → Option A → E → Result E A
found none e = err e
found (some a) e = ok a

-- The position of an edge, by its identifier or by the legacy one.
legacy_position : {E : Type 0} → Option ℕ → Legacy → String → E → E → Result E ℕ
legacy_position (some i) legacy id ambiguous unknown = ok i
legacy_position none legacy id ambiguous unknown =
    fail_if (contains legacy.ambiguous id) ambiguous >> found (lookup id legacy.index) unknown

unfoldable pub edge_position : {E : Type 0} → Map ℕ → Legacy → String → E → E → Result E ℕ
unfolding legacy_position
edge_position index legacy id ambiguous unknown =
    legacy_position (lookup id index) legacy id ambiguous unknown

unfoldable pub nth {ℓ} : {A : Type ℓ} → ℕ → List A → Option A
nth i [] = none
nth zero (x ∷ xs) = some x
nth (suc i) (x ∷ xs) = nth i xs

unfoldable pub set {ℓ} : {A : Type ℓ} → ℕ → A → List A → List A
set i y [] = []
set zero y (x ∷ xs) = y ∷ xs
set (suc i) y (x ∷ xs) = x ∷ set i y xs

-- `merge(&records[i], &models[j])`
unfoldable pub merge_both {ℓ κ} :
    {A : Type ℓ} {B : Type κ}
    → (A × B → A × B)
    → ℕ
    → ℕ
    → List A
    → List B
    → Option A
    → Option B
    → List A × List B
merge_both f i j records models (some a) (some b) =
    let merged = f (a, b) in (set i merged.0 records, set j merged.1 models)
merge_both f i j records models _ _ = (records, models)

unfoldable pub merge_at {ℓ κ} :
    {A : Type ℓ} {B : Type κ} → (A × B → A × B) → ℕ → ℕ → List A → List B → List A × List B
merge_at f i j records models = merge_both f i j records models (nth i records) (nth j models)
