-- ===== src/Model/Normalize/Order.antt =====
-- internal/model/model.go: the order that `SortDeterministic` leaves.
use mathlib.Core.List.{Perm}
use bering.Prelude.{
  String, ◌≡◌, Bool, true, false, not, ◌==◌, if◌then◌else◌, eq_iff, arith, map, List, [], ◌∷◌,
}
use bering.Go.Float.{FloatOps}
use bering.Go.Text.Order.{less, less-asym, less_irrefl}
use bering.Go.Sort.{FirstFits, IsSorted, sort-IsSorted, sort-perm}
use bering.Model.Types.{Edge, ResilienceModel}
use bering.Model.Normalize.Sort.{
  service_less, edge_less, endpoint_less, normalize_service, normalize_edge, normalize_endpoint,
  sort_deterministic,
}

-- The first text is not after the second.
abbrev pub Before : String → String → Type 0
Before s t = less t s ≡ false

-- The order of the edges, spelled out: by identifier; under one identifier by the service that calls;
-- then by the service that is called; then by kind; and of edges alike in these, the ones that do not
-- block come first.
pub record EdgeBefore (a b : Edge) : Type 0 where
  pub id : Before a.id b.id
  pub from : a.id ≡ b.id → Before a.from b.from
  pub to : a.id ≡ b.id → a.from ≡ b.from → Before a.to b.to
  pub kind : a.id ≡ b.id → a.from ≡ b.from → a.to ≡ b.to → Before a.kind b.kind
  pub blocking :
      a.id ≡ b.id
      → a.from ≡ b.from
      → a.to ≡ b.to
      → a.kind ≡ b.kind
      → a.blocking ≡ true
      → b.blocking ≡ true

module _ {A : Type 0} (R : A → A → Type 0) where
  abbrev FitsBefore : A → List A → Type 0
  FitsBefore x [] = Unit
  FitsBefore x (y ∷ ys) = R x y

  -- Each element stands in the relation to the next.
  abbrev pub Ascending : List A → Type 0
  Ascending [] = Unit
  Ascending (x ∷ xs) = FitsBefore x xs × Ascending xs

  FitsBefore-FirstFits :
      (before : A → A → Bool)
      → ((x y : A) → before y x ≡ false → R x y)
      → (x : A) (xs : List A) → FirstFits before x xs
      → FitsBefore x xs
  FitsBefore-FirstFits before step x [] h = tt
  FitsBefore-FirstFits before step x (y ∷ ys) h = step x y h

  Ascending-IsSorted :
      (before : A → A → Bool)
      → ((x y : A) → before y x ≡ false → R x y)
      → (xs : List A) → IsSorted before xs
      → Ascending xs
  Ascending-IsSorted before step [] h = tt
  Ascending-IsSorted before step (x ∷ xs) h =
      (FitsBefore-FirstFits before step x xs h.0, Ascending-IsSorted before step xs h.1)

-- The model `m'` lists what a model lists, each in normal form: services and endpoints by their
-- identifiers, edges by the order above.
pub record IsOrdered (fl : FloatOps) (m m' : ResilienceModel) : Type 0 where
  pub services : Ascending (λ a b. Before a.id b.id) m'.services
  pub edges : Ascending EdgeBefore m'.edges
  pub endpoints : Ascending (λ a b. Before a.id b.id) m'.endpoints
  pub same_services : Perm m'.services (map (normalize_service fl) m.services)
  pub same_edges : Perm m'.edges (map (normalize_edge fl) m.edges)
  pub same_endpoints : Perm m'.endpoints (map (normalize_endpoint fl) m.endpoints)

edge_less-asym : (a b : Edge) → edge_less a b ≡ true → edge_less b a ≡ false
unfolding edge_less
edge_less-asym a b h = ground (
  arith,
  less-asym a.id b.id,
  less-asym a.from b.from,
  less-asym a.to b.to,
  less-asym a.kind b.kind,
  eq_iff a.id b.id,
  eq_iff b.id a.id,
  eq_iff a.from b.from,
  eq_iff b.from a.from,
  eq_iff a.to b.to,
  eq_iff b.to a.to,
  eq_iff a.kind b.kind,
  eq_iff b.kind a.kind,
)

-- One key of a comparison, and the keys after it.
key_step :
    (s t : String) (later : Bool)
    → (if not (t == s) then less t s else later) ≡ false
    → Before s t × (s ≡ t → later ≡ false)
key_step s t later h = ground (arith, eq_iff t s, eq_iff s t, less_irrefl s)

edge_less-EdgeBefore : (a b : Edge) → edge_less b a ≡ false → EdgeBefore a b
unfolding edge_less
edge_less-EdgeBefore a b h =
    let (id, later) = key_step a.id b.id _ h in
    let from = λ (e : a.id ≡ b.id). key_step a.from b.from _ (later e) in
    let to = λ (e : a.id ≡ b.id) (f : a.from ≡ b.from). key_step a.to b.to _ ((from e).1 f) in
    let kind = λ (e : a.id ≡ b.id) (f : a.from ≡ b.from) (g : a.to ≡ b.to).
      key_step a.kind b.kind _ ((to e f).1 g) in
    record {
      id = id;
      from = λ e. (from e).0;
      to = λ e f. (to e f).0;
      kind = λ e f g. (kind e f g).0;
      blocking = λ e f g k blocks. ground (arith, (kind e f g).1 k);
    }

module _ (fl : FloatOps) where
  -- `SortDeterministic` loses and adds nothing: its services, edges and endpoints are those of the
  -- model in normal form, in order, each beside the next: services and endpoints by their identifiers;
  -- edges by identifier, then by the calling and the called service, by kind, and those that do not
  -- block before those that do.
  pub sort_deterministic-IsOrdered :
      (m : ResilienceModel) → IsOrdered fl m (sort_deterministic fl m)
  unfolding sort_deterministic service_less endpoint_less
  sort_deterministic-IsOrdered m = record {
    services =
        Ascending-IsSorted _ service_less (λ a b h. h) _
          (sort-IsSorted service_less (λ a b. less-asym a.id b.id)
            (map (normalize_service fl) m.services));
    edges =
        Ascending-IsSorted _ edge_less edge_less-EdgeBefore _
          (sort-IsSorted edge_less edge_less-asym (map (normalize_edge fl) m.edges));
    endpoints =
        Ascending-IsSorted _ endpoint_less (λ a b h. h) _
          (sort-IsSorted endpoint_less (λ a b. less-asym a.id b.id)
            (map (normalize_endpoint fl) m.endpoints));
    same_services = sort-perm service_less (map (normalize_service fl) m.services);
    same_edges = sort-perm edge_less (map (normalize_edge fl) m.edges);
    same_endpoints = sort-perm endpoint_less (map (normalize_endpoint fl) m.endpoints);
  }
