-- ===== src/Discovery/Overlays/Keys.antt =====
-- internal/discovery/discovery.go, `applyOverlays`: what stays when parts of the slices are replaced.
use bering.Prelude.{
  ok_inj, ℕ, zero, suc, String, Bool, ◌≡◌, refl, ap, ◌∙◌, subst, Option, none, some, List, [], ◌∷◌,
  map, Result, ok, ◌>>=◌, >>=-eq-ok,
}
use bering.Model.Types.{Service, Edge, Endpoint}
use bering.Snapshot.Types.{ServiceRecord, EdgeRecord, EndpointRecord}
use bering.Discovery.Positions.{Layers, nth, set, merge_both, merge_at}
use bering.Discovery.Overlays.{at_positions, OverlayError, each}

abbrev pub edge_key : Edge → String × String × String × String × Bool
edge_key e = (e.id, e.from, e.to, e.kind, e.blocking)

abbrev pub edge_record_key : EdgeRecord → String × String × String × String × Bool
edge_record_key e = (e.id, e.from, e.to, e.kind, e.blocking)

abbrev pub endpoint_key : Endpoint → String × String
endpoint_key e = (e.id, e.entry_service)

abbrev pub endpoint_record_key : EndpointRecord → String × String
endpoint_record_key e = (e.id, e.entry_service)

-- The same services, edges and endpoints in the same places, with what they join and enter.
pub record Keeps (l l' : Layers) : Type 0 where
  pub services : map (λ s. s.id) l'.services ≡ map (λ s. s.id) l.services
  pub model_services : map (λ s. s.id) l'.model_services ≡ map (λ s. s.id) l.model_services
  pub edges : map edge_record_key l'.edges ≡ map edge_record_key l.edges
  pub model_edges : map edge_key l'.model_edges ≡ map edge_key l.model_edges
  pub endpoints : map endpoint_record_key l'.endpoints ≡ map endpoint_record_key l.endpoints
  pub model_endpoints : map endpoint_key l'.model_endpoints ≡ map endpoint_key l.model_endpoints

pub Keeps-refl : (l : Layers) → Keeps l l
Keeps-refl l = record {
  services = refl;
  model_services = refl;
  edges = refl;
  model_edges = refl;
  endpoints = refl;
  model_endpoints = refl;
}

pub Keeps-trans : (a b c : Layers) → Keeps a b → Keeps b c → Keeps a c
Keeps-trans a b c h k = record {
  services = k.services ∙ h.services;
  model_services = k.model_services ∙ h.model_services;
  edges = k.edges ∙ h.edges;
  model_edges = k.model_edges ∙ h.model_edges;
  endpoints = k.endpoints ∙ h.endpoints;
  model_endpoints = k.model_endpoints ∙ h.model_endpoints;
}

pub with_services-Keeps :
    (l : Layers) (records : List ServiceRecord) (models : List Service)
    → map (λ s. s.id) records ≡ map (λ s. s.id) l.services
    → map (λ s. s.id) models ≡ map (λ s. s.id) l.model_services
    → Keeps l (record l { services = records; model_services = models })
with_services-Keeps l records models h k = record {
  services = h;
  model_services = k;
  edges = refl;
  model_edges = refl;
  endpoints = refl;
  model_endpoints = refl;
}

pub with_edges-Keeps :
    (l : Layers) (records : List EdgeRecord) (models : List Edge)
    → map edge_record_key records ≡ map edge_record_key l.edges
    → map edge_key models ≡ map edge_key l.model_edges
    → Keeps l (record l { edges = records; model_edges = models })
with_edges-Keeps l records models h k = record {
  services = refl;
  model_services = refl;
  edges = h;
  model_edges = k;
  endpoints = refl;
  model_endpoints = refl;
}

pub with_endpoints-Keeps :
    (l : Layers) (records : List EndpointRecord) (models : List Endpoint)
    → map endpoint_record_key records ≡ map endpoint_record_key l.endpoints
    → map endpoint_key models ≡ map endpoint_key l.model_endpoints
    → Keeps l (record l { endpoints = records; model_endpoints = models })
with_endpoints-Keeps l records models h k = record {
  services = refl;
  model_services = refl;
  edges = refl;
  model_edges = refl;
  endpoints = h;
  model_endpoints = k;
}

map-set {ℓ κ} :
    {A : Type ℓ} {K : Type κ} (key : A → K) (i : ℕ) (y : A) (xs : List A) {x : A}
    → nth i xs ≡ some x
    → key y ≡ key x
    → map key (set i y xs) ≡ map key xs
unfolding nth set
map-set key i y [] at same = refl
map-set key zero y (x ∷ xs) at same = cc
map-set key (suc i) y (x ∷ xs) at same = ap (λ r. key x ∷ r) (map-set key i y xs at same)

merge_both-keys {ℓ κ μ ν} :
    {A : Type ℓ} {B : Type κ} {K : Type μ} {L : Type ν} (f : A × B → A × B) (key : A → K)
    (other : B → L) (i j : ℕ) (records : List A) (models : List B) (a : Option A) (b : Option B)
    → ((p : A × B) → (key (f p).0 ≡ key p.0) × (other (f p).1 ≡ other p.1))
    → nth i records ≡ a
    → nth j models ≡ b
    → (map key (merge_both f i j records models a b).0 ≡ map key records)
      × (map other (merge_both f i j records models a b).1 ≡ map other models)
unfolding merge_both
merge_both-keys f key other i j records models (some a) (some b) keeps at at' =
    (map-set key i _ records at (keeps (a, b)).0, map-set other j _ models at' (keeps (a, b)).1)
merge_both-keys f key other i j records models none b keeps at at' = (refl, refl)
merge_both-keys f key other i j records models (some a) none keeps at at' = (refl, refl)

pub merge_at-keys {ℓ κ μ ν} :
    {A : Type ℓ} {B : Type κ} {K : Type μ} {L : Type ν} (f : A × B → A × B) (key : A → K)
    (other : B → L) (i j : ℕ) (records : List A) (models : List B)
    → ((p : A × B) → (key (f p).0 ≡ key p.0) × (other (f p).1 ≡ other p.1))
    → (map key (merge_at f i j records models).0 ≡ map key records)
      × (map other (merge_at f i j records models).1 ≡ map other models)
unfolding merge_at
merge_at-keys f key other i j records models keeps =
    merge_both-keys f key other i j records models (nth i records) (nth j models) keeps refl refl

pub each-Keeps {ℓ} :
    {A : Type ℓ} (step : A → Layers → Result OverlayError Layers) (xs : List A) (l : Layers)
    {l' : Layers}
    → ((x : A) (a b : Layers) → step x a ≡ ok b → Keeps a b)
    → each step xs l ≡ ok l'
    → Keeps l l'
unfolding each
each-Keeps step [] l keeps returned =
    subst (λ (m : Layers). Keeps l m) (ok_inj returned) (Keeps-refl l)
each-Keeps step (x ∷ xs) l {l'} keeps returned =
    let (mid, stepped, rest) = >>=-eq-ok (step x l) (each step xs) returned in
    Keeps-trans l mid l' (keeps x l mid stepped) (each-Keeps step xs mid keeps rest)

pub at_positions_lem :
    (P : Layers → Type 0) (recorded modelled : Result OverlayError ℕ) (change : ℕ → ℕ → Layers)
    {l' : Layers}
    → ((i j : ℕ) → P (change i j))
    → at_positions recorded modelled change ≡ ok l'
    → P l'
unfolding at_positions
at_positions_lem P recorded modelled change each returned =
    let (i, _, rest) = >>=-eq-ok recorded (λ i. modelled >>= λ j. ok (change i j)) returned in
    let (j, _, last) = >>=-eq-ok modelled (λ j. ok (change i j)) rest in
    subst P (ok_inj last) (each i j)
