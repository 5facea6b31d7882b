-- ===== src/Discovery/Overlays/Resolution.antt =====
-- internal/discovery/discovery.go, `applyOverlays`: which overlays can be applied.
use bering.Prelude.{
  Bool-cases, inl, inr, ℕ, suc, String, ◌||◌, ◌≡◌, refl, ap, ◌∙◌, true, false, List, [], ◌∷◌, map,
  All, All-imp, arith, ◌==◌, Result, ok, ◌>>=◌, ◌>>◌, >>=-returns,
}
use bering.Go.Int.{ℤ, pos, add}
use bering.Go.Float.{FloatOps}
use bering.Go.Map.{Map, lookup, has, put, has-put, contains}
use bering.Snapshot.Types.{Provenance, OverlayApplication}
use bering.Overlay.Types.{ServiceOverlay, EdgeOverlay, EndpointOverlay, File}
use bering.Discovery.Attributes.{Texts}
use bering.Discovery.Positions.{
  Layers, Legacy, Positions, positions, positions_of, found, edge_position,
}
use bering.Discovery.Overlays.{
  OverlayError, attribute_key, each, at_positions, check_reserved, check_all, apply_service,
  apply_edge, apply_endpoint, apply_overlay, apply_loop, apply_overlays, provenance_of,
  applications_from, validate_observation_overlay,
}

-- No item of the file writes the reserved attribute.
abbrev pub Unreserved : File → Type 0
Unreserved f =
    All (λ s. has attribute_key s.metadata.attributes ≡ false) f.services
    × (All (λ e. has attribute_key e.metadata.attributes ≡ false) f.edges
        × All (λ e. has attribute_key e.metadata.attributes ≡ false) f.endpoints)

-- Every item of the file is named by the identifier of a record, which the model has too.
abbrev pub Resolves : Layers → File → Type 0
Resolves l f =
    All
      (λ s.
        (contains (map (λ r. r.id) l.services) s.id ≡ true)
        × (contains (map (λ r. r.id) l.model_services) s.id ≡ true))
      f.services
    × (All
          (λ e.
            (contains (map (λ r. r.id) l.edges) e.id ≡ true)
            × (contains (map (λ r. r.id) l.model_edges) e.id ≡ true))
          f.edges
        × All
            (λ e.
              (contains (map (λ r. r.id) l.endpoints) e.id ≡ true)
              × (contains (map (λ r. r.id) l.model_endpoints) e.id ≡ true))
            f.endpoints)

abbrev Returns {ℓ} : {S : Type ℓ} → Result OverlayError S → Type ℓ
Returns {S = S} r = (s : S) × (r ≡ ok s)

has-positions {ℓ} :
    {A : Type ℓ} (key : A → String) (i : ℕ) (xs : List A) (index : Map ℕ) (k : String)
    → (contains (map key xs) k || has k index) ≡ true
    → has k (positions key i xs index) ≡ true
unfolding positions contains
has-positions key i [] index k h = h
has-positions key i (x ∷ xs) index k h =
    has-positions key (suc i) xs (put (key x) i index) k
      (ground (arith, has-put (key x) k i index, h))

Returns-found :
    (k : String) (index : Map ℕ) (e : OverlayError)
    → has k index ≡ true
    → Returns (found (lookup k index) e)
unfolding has lookup found
Returns-found k [] e h = cc
Returns-found k ((j, v) ∷ m) e h = elim (Bool-cases (j == k)) [
  | inl same ↦ rw same (v, refl)
  | inr other ↦ rw other (Returns-found k m e (ground (arith, other, h)))
]

Returns-edge_position :
    (k : String) (index : Map ℕ) (legacy : Legacy) (a u : OverlayError)
    → has k index ≡ true
    → Returns (edge_position index legacy k a u)
unfolding has lookup edge_position
Returns-edge_position k [] legacy a u h = cc
Returns-edge_position k ((j, v) ∷ m) legacy a u h = elim (Bool-cases (j == k)) [
  | inl same ↦ rw same (v, refl)
  | inr other ↦ rw other (Returns-edge_position k m legacy a u (ground (arith, other, h)))
]

Returns-at_positions :
    (recorded modelled : Result OverlayError ℕ) (change : ℕ → ℕ → Layers)
    → Returns recorded
    → Returns modelled
    → Returns (at_positions recorded modelled change)
unfolding at_positions
Returns-at_positions recorded modelled change (i, at) (j, at') =
    >>=-returns recorded (λ i. modelled >>= λ j. ok (change i j)) at
      (>>=-returns modelled (λ j. ok (change i j)) at' (change i j, refl))

Returns-each {ℓ κ} :
    {A : Type ℓ} {S : Type κ} (step : A → S → Result OverlayError S) (xs : List A) (s : S)
    → All (λ x. (s : S) → Returns (step x s)) xs
    → Returns (each step xs s)
unfolding each
Returns-each step [] s h = (s, refl)
Returns-each step (x ∷ xs) s h =
    let (s', stepped) = h.0 s in
    >>=-returns (step x s) (each step xs) stepped (Returns-each step xs s' h.1)

passes_all {ℓ} :
    {A : Type ℓ} (check : A → Result OverlayError (Unit {0})) (xs : List A)
    → All (λ x. check x ≡ ok tt) xs
    → check_all check xs ≡ ok tt
unfolding check_all
passes_all check [] h = refl
passes_all check (x ∷ xs) h = ap (λ r. r >> check_all check xs) h.0 ∙ passes_all check xs h.1

check_reserved_lem :
    (name kind id : String) (attributes : Map String)
    → has attribute_key attributes ≡ false
    → check_reserved name kind id attributes ≡ ok tt
unfolding check_reserved
check_reserved_lem name kind id attributes absent = rw absent refl

validate_observation_overlay_lem :
    (f : File) → Unreserved f → validate_observation_overlay f ≡ ok tt
unfolding validate_observation_overlay
validate_observation_overlay_lem f (services, (edges, endpoints)) =
    let of_services =
      passes_all (λ s. check_reserved f.name "service" s.id s.metadata.attributes) f.services
        (All-imp _ _ f.services (λ s. check_reserved_lem _ _ _ s.metadata.attributes) services) in
    let of_edges =
      passes_all (λ e. check_reserved f.name "edge" e.id e.metadata.attributes) f.edges
        (All-imp _ _ f.edges (λ e. check_reserved_lem _ _ _ e.metadata.attributes) edges) in
    let of_endpoints =
      passes_all (λ e. check_reserved f.name "endpoint" e.id e.metadata.attributes) f.endpoints
        (All-imp _ _ f.endpoints (λ e. check_reserved_lem _ _ _ e.metadata.attributes) endpoints) in
    rw (of_services, of_edges, of_endpoints) refl

module _ {Value : Type 0} (texts : Texts Value) (fl : FloatOps) (l : Layers) where
  abbrev at : Positions
  at = positions_of l

  module _ (name : String) (prov : Provenance) where
    service-Returns :
        (item : ServiceOverlay)
        → (contains (map (λ r. r.id) l.services) item.id ≡ true)
          × (contains (map (λ r. r.id) l.model_services) item.id ≡ true)
        → (from : Layers) → Returns (apply_service texts fl at name prov item from)
    unfolding apply_service positions_of
    service-Returns item (recorded, modelled) from =
        Returns-at_positions _ _ _
          (Returns-found item.id at.services _
            (has-positions (λ s. s.id) 0 l.services [] item.id (ground (arith, recorded))))
          (Returns-found item.id at.model_services _
            (has-positions (λ s. s.id) 0 l.model_services [] item.id (ground (arith, modelled))))

    edge-Returns :
        (item : EdgeOverlay)
        → (contains (map (λ r. r.id) l.edges) item.id ≡ true)
          × (contains (map (λ r. r.id) l.model_edges) item.id ≡ true)
        → (from : Layers) → Returns (apply_edge texts fl at name prov item from)
    unfolding apply_edge positions_of
    edge-Returns item (recorded, modelled) from =
        Returns-at_positions _ _ _
          (Returns-edge_position item.id at.edges at.legacy _ _
            (has-positions (λ s. s.id) 0 l.edges [] item.id (ground (arith, recorded))))
          (Returns-edge_position item.id at.model_edges at.model_legacy _ _
            (has-positions (λ s. s.id) 0 l.model_edges [] item.id (ground (arith, modelled))))

    endpoint-Returns :
        (item : EndpointOverlay)
        → (contains (map (λ r. r.id) l.endpoints) item.id ≡ true)
          × (contains (map (λ r. r.id) l.model_endpoints) item.id ≡ true)
        → (from : Layers) → Returns (apply_endpoint texts fl at name prov item from)
    unfolding apply_endpoint positions_of
    endpoint-Returns item (recorded, modelled) from =
        Returns-at_positions _ _ _
          (Returns-found item.id at.endpoints _
            (has-positions (λ s. s.id) 0 l.endpoints [] item.id (ground (arith, recorded))))
          (Returns-found item.id at.model_endpoints _
            (has-positions (λ s. s.id) 0 l.model_endpoints [] item.id (ground (arith, modelled))))

  apply_overlay-Returns :
      (precedence : ℤ) (f : File) (from : Layers)
      → Unreserved f
      → Resolves l f
      → Returns (apply_overlay texts fl at precedence f from)
  unfolding apply_overlay
  apply_overlay-Returns precedence f from unreserved (services, (edges, endpoints)) =
      let prov = provenance_of texts fl at f precedence in
      let (l1, first) =
        Returns-each (apply_service texts fl at f.name prov) f.services from
          (All-imp _ _ f.services (service-Returns f.name prov) services) in
      let (l2, second) =
        Returns-each (apply_edge texts fl at f.name prov) f.edges l1
          (All-imp _ _ f.edges (edge-Returns f.name prov) edges) in
      let third =
        Returns-each (apply_endpoint texts fl at f.name prov) f.endpoints l2
          (All-imp _ _ f.endpoints (endpoint-Returns f.name prov) endpoints) in
      rw (validate_observation_overlay_lem f unreserved, first, second) third

  apply_loop-Returns :
      (before : ℤ) (files : List File) (from : Layers)
      → All Unreserved files
      → All (Resolves l) files
      → Returns (apply_loop texts fl at before files from)
  unfolding apply_loop
  apply_loop-Returns before [] from unreserved resolved = (from, refl)
  apply_loop-Returns before (f ∷ files) from unreserved resolved =
      let precedence = add before (pos 1) in
      let (mid, applied) = apply_overlay-Returns precedence f from unreserved.0 resolved.0 in
      >>=-returns (apply_overlay texts fl at precedence f from)
        (λ m. apply_loop texts fl at precedence files m) applied
        (apply_loop-Returns (add before (pos 1)) files mid unreserved.1 resolved.1)

-- Overlays can be applied, whatever else they give, if none of them writes the reserved attribute and
-- each names the services, edges and endpoints by the identifiers of records, which the model has too.
pub apply_overlays-returns :
    {Value : Type 0} (texts : Texts Value) (fl : FloatOps) (l : Layers) (files : List File)
    → All Unreserved files
    → All (Resolves l) files
    → (done : Layers × List OverlayApplication) × (apply_overlays texts fl l files ≡ ok done)
unfolding apply_overlays
apply_overlays-returns texts fl l files unreserved resolved =
    let (after, applied) = apply_loop-Returns texts fl l (pos 0) files l unreserved resolved in
    >>=-returns (apply_loop texts fl (positions_of l) (pos 0) files l)
      (λ m. ok (m, applications_from (pos 0) files)) applied
      ((after, applications_from (pos 0) files), refl)
