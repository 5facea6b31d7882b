-- ===== src/Model/Validate/Loops.antt =====
-- internal/model/model.go: what the loops of `ValidateSemantic` establish.
use bering.Prelude.{
  String, ◌≡◌, refl, ◌∙◌, ◌||◌, List, [], ◌∷◌, arith, All, ok, >>=-eq-ok, >>-eq-ok_iff, ◌↔◌, map,
  if◌then◌else◌, Bool-cases, inl, inr,
}
use bering.Go.Float.{FloatOps}
use bering.Go.Text.{trim_space, is_blank}
use bering.Go.Map.{contains}
use bering.Model.Types.{Service, Edge, Endpoint}
use bering.Model.Integrity.{Names, Enters, Fresh}
use bering.Model.Validate.{
  check_service, check_services, check_edge, check_edges, check_endpoint, check_endpoints,
  record_edge_id,
}
use bering.Model.Validate.Steps.{
  IsServiceOk, IsEdgeOk, IsEndpointOk, IsNewEdge, check_service_lem, check_edge_lem,
  check_endpoint_lem,
}

-- The set that the first loop returns.
abbrev pub service_set : List String → List Service → List String
service_set seen [] = seen
service_set seen (s ∷ xs) = service_set (s.id ∷ seen) xs

pub contains-service_set :
    (k : String) (seen : List String) (xs : List Service)
    → contains (service_set seen xs) k ≡ (contains (map (λ s. s.id) xs) k || contains seen k)
unfolding contains
contains-service_set k seen [] = refl
contains-service_set k seen (s ∷ xs) = contains-service_set k (s.id ∷ seen) xs ∙ ground arith

-- The names that the edges carry: a blank one is none.
abbrev pub edge_names : List Edge → List String
edge_names [] = []
edge_names (e ∷ es) =
    let rest = edge_names es in if is_blank (trim_space e.id) then rest else trim_space e.id ∷ rest

module _ (fl : FloatOps) where
  pub check_services_iff :
      (seen : List String) (xs : List Service)
      → (check_services fl seen xs ≡ ok (service_set seen xs))
        ↔ (All (IsServiceOk fl) xs × Fresh seen (map (λ s. s.id) xs))
  unfolding check_services
  check_services_iff seen [] = (λ h. (tt, tt), λ h. refl)
  check_services_iff seen (s ∷ xs) =
      let step = check_service_lem fl seen s in
      let later = check_services_iff (s.id ∷ seen) xs in
      let both =
        >>-eq-ok_iff (check_service fl seen s) (check_services fl (s.id ∷ seen) xs)
          {b = service_set (s.id ∷ seen) xs} in
      (
        λ h.
            let (c, r) = both.0 h in
            let (good, new) = step.0 c in
            let (all, fresh) = later.0 r in ((good, all), (new, fresh)),
        λ h. both.1 (step.1 (h.0.0, h.1.0), later.1 (h.0.1, h.1.1)),
      )

  pub check_services-set :
      (seen ids : List String) (xs : List Service)
      → check_services fl seen xs ≡ ok ids
      → ids ≡ service_set seen xs
  unfolding check_services
  check_services-set seen ids [] h = cc
  check_services-set seen ids (s ∷ xs) h =
      let (u, checked, rest) = >>=-eq-ok (check_service fl seen s) _ h in
      check_services-set (s.id ∷ seen) ids xs rest

  -- The names that are still to come, behind an edge with a name or without one.
  Fresh-names :
      (seen : List String) (e : Edge) (es : List Edge)
      → (IsNewEdge seen e × Fresh (record_edge_id e seen) (edge_names es))
        ↔ Fresh seen (edge_names (e ∷ es))
  unfolding record_edge_id
  Fresh-names seen e es = elim (Bool-cases (is_blank (trim_space e.id))) [
    | inl blank ↦ rw blank (λ h. h.1, λ h. (inl refl, h))
    | inr named ↦ rw named (λ h. (ground arith, h.1), λ h. (inr h.0, h.1))
  ]

  pub check_edges_iff :
      (ids seen : List String) (es : List Edge)
      → (check_edges fl ids seen es ≡ ok tt)
        ↔ (All (Names ids) es × All (IsEdgeOk fl) es × Fresh seen (edge_names es))
  unfolding check_edges
  check_edges_iff ids seen [] = (λ h. (tt, tt, tt), λ h. refl)
  check_edges_iff ids seen (e ∷ es) =
      let step = check_edge_lem fl ids seen e in
      let later = check_edges_iff ids (record_edge_id e seen) es in
      let both =
        >>-eq-ok_iff (check_edge fl ids seen e) (check_edges fl ids (record_edge_id e seen) es)
          {b = tt} in
      (
        λ h.
            let (c, r) = both.0 h in
            let (names, good, new) = step.0 c in
            let (all, goods, fresh) = later.0 r in
            ((names, all), (good, goods), (Fresh-names seen e es).0 (new, fresh)),
        λ h.
            let (new, fresh) = (Fresh-names seen e es).1 h.2 in
            both.1 (step.1 (h.0.0, h.1.0, new), later.1 (h.0.1, h.1.1, fresh)),
      )

  pub check_endpoints_iff :
      (ids seen : List String) (es : List Endpoint)
      → (check_endpoints fl ids seen es ≡ ok tt)
        ↔ (All (Enters ids) es × All (IsEndpointOk fl ids) es × Fresh seen (map (λ e. e.id) es))
  unfolding check_endpoints
  check_endpoints_iff ids seen [] = (λ h. (tt, tt, tt), λ h. refl)
  check_endpoints_iff ids seen (e ∷ es) =
      let step = check_endpoint_lem fl ids seen e in
      let later = check_endpoints_iff ids (e.id ∷ seen) es in
      let both =
        >>-eq-ok_iff (check_endpoint fl ids seen e) (check_endpoints fl ids (e.id ∷ seen) es)
          {b = tt} in
      (
        λ h.
            let (c, r) = both.0 h in
            let (enters, good, new) = step.0 c in
            let (all, goods, fresh) = later.0 r in ((enters, all), (good, goods), (new, fresh)),
        λ h. both.1 (step.1 (h.0.0, h.1.0, h.2.0), later.1 (h.0.1, h.1.1, h.2.1)),
      )
