-- ===== src/Model/Validate/Exact.antt =====
-- internal/model/model.go: `ValidateSemantic` as a whole, against what a valid model is.
use bering.Prelude.{
  All-imp, subst, fail_if, >>-eq-ok_iff, >>=-eq-ok, String, ◌≡◌, refl, sym, ◌∙◌, false, List, [],
  ◌∷◌, arith, All, ok, Checked, is_empty, ◌↔◌, map, ◌>>◌, ℕ, ◌+◌, some, none, Option,
}
use bering.Go.Float.{FloatOps}
use bering.Go.Text.{trim_space}
use bering.Go.Time.{Rfc3339}
use bering.Go.Map.{contains}
use bering.Model.Types.{Edge, Endpoint, EndpointMetadata, EndpointSemantics, ResilienceModel}
use bering.Model.Integrity.{Fresh-nil_iff, Names, Enters, HasIntegrity, Distinct}
use bering.Model.Validate.{
  check_services, check_edges, check_endpoints, check_metadata, validate_semantic,
}
use bering.Model.Validate.Errors.{services_empty, Error}
use bering.Model.Validate.Parts.{
  validate_endpoint_metadata, validate_endpoint_semantics, validate_mandatory_targets,
}
use bering.Model.Validate.Steps.{
  check_metadata_lem, IsServiceOk, IsEdgeOk, IsEndpointOk, IsMetadataOk,
}
use bering.Model.Validate.Loops.{
  check_edges_iff, check_endpoints_iff, check_services_iff, check_services-set, service_set,
  contains-service_set, edge_names,
}

abbrev pub service_ids : ResilienceModel → List String
service_ids m = map (λ s. s.id) m.services

-- What the artifact promises.
pub record IsValid (fl : FloatOps) (clock : Rfc3339) (m : ResilienceModel) : Type 0 where
  pub nonempty : is_empty m.services ≡ false
  pub services : All (IsServiceOk fl) m.services
  pub distinct_services : Distinct (service_ids m)
  pub integrity : HasIntegrity m
  pub edges : All (IsEdgeOk fl) m.edges
  pub distinct_edges : Distinct (edge_names m.edges)
  pub endpoints : All (IsEndpointOk fl (service_ids m)) m.endpoints
  pub distinct_endpoints : Distinct (map (λ e. e.id) m.endpoints)
  pub metadata : IsMetadataOk fl clock m.metadata

-- Two lists with the same members.
abbrev SameSet : List String → List String → Type 0
SameSet a b = (k : String) → contains a k ≡ contains b k

targets-SameSet :
    (n : ℕ) (a b ts : List String)
    → SameSet a b
    → validate_mandatory_targets n a ts ≡ validate_mandatory_targets n b ts
unfolding validate_mandatory_targets
targets-SameSet n a b [] same = refl
targets-SameSet n a b (t ∷ ts) same = rw (same (trim_space t), targets-SameSet (n + 1) a b ts same)

semantics-SameSet :
    (fl : FloatOps) (a b : List String) (o : Option EndpointSemantics)
    → SameSet a b
    → validate_endpoint_semantics fl o a ≡ validate_endpoint_semantics fl o b
unfolding validate_endpoint_semantics
semantics-SameSet fl a b none same = refl
semantics-SameSet fl a b (some s) same = rw (targets-SameSet 0 a b s.mandatory_targets same)

metadata-SameSet :
    (fl : FloatOps) (a b : List String) (o : Option EndpointMetadata)
    → SameSet a b
    → validate_endpoint_metadata fl o a ≡ validate_endpoint_metadata fl o b
unfolding validate_endpoint_metadata
metadata-SameSet fl a b none same = refl
metadata-SameSet fl a b (some m) same = rw (semantics-SameSet fl a b m.semantics same)

Names-SameSet : (a b : List String) (e : Edge) → SameSet a b → Names a e → Names b e
Names-SameSet a b e same h = (sym (same e.from) ∙ h.0, sym (same e.to) ∙ h.1)

Enters-SameSet : (a b : List String) (e : Endpoint) → SameSet a b → Enters a e → Enters b e
Enters-SameSet a b e same h = sym (same e.entry_service) ∙ h

IsEndpointOk-SameSet :
    (fl : FloatOps) (a b : List String) (e : Endpoint)
    → SameSet a b
    → IsEndpointOk fl a e
    → IsEndpointOk fl b e
IsEndpointOk-SameSet fl a b e same h = record {
  id = h.id;
  predicate = h.predicate;
  metadata = sym (metadata-SameSet fl a b e.metadata same) ∙ h.metadata;
}

service_set-SameSet : (m : ResilienceModel) → SameSet (service_set [] m.services) (service_ids m)
unfolding contains
service_set-SameSet m k = contains-service_set k [] m.services ∙ ground arith

module _ (fl : FloatOps) (clock : Rfc3339) (m : ResilienceModel) where
  -- The checks behind the first loop, at the set that it returns.
  abbrev later_checks : List String → Checked Error
  later_checks ids =
      check_edges fl ids [] m.edges
      >> (check_endpoints fl ids [] m.endpoints >> check_metadata fl clock m.metadata)

  later_checks_iff :
      (ids : List String)
      → (later_checks ids ≡ ok tt) ↔ (
          (check_edges fl ids [] m.edges ≡ ok tt)
          × (check_endpoints fl ids [] m.endpoints ≡ ok tt)
          × (check_metadata fl clock m.metadata ≡ ok tt))
  later_checks_iff ids = ground arith

  abbrev found_set : List String
  found_set = service_set [] m.services

  validate_split : (validate_semantic fl clock m ≡ ok tt) ↔ (
      (is_empty m.services ≡ false)
      × (check_services fl [] m.services ≡ ok found_set)
      × (later_checks found_set ≡ ok tt))
  unfolding validate_semantic
  validate_split = (
    λ h.
        let (some_service, h') =
          (>>-eq-ok_iff (fail_if (is_empty m.services) services_empty) _).0 h in
        let (ids, found, rest) = >>=-eq-ok (check_services fl [] m.services) later_checks h' in
        let e = check_services-set fl [] ids m.services found in
        (
          ground arith,
          subst (λ (l : List String). check_services fl [] m.services ≡ ok l) e found,
          subst (λ (l : List String). later_checks l ≡ ok tt) e rest,
        ),
    λ h. rw (h.0, h.1) h.2,
  )

  sound : validate_semantic fl clock m ≡ ok tt → IsValid fl clock m
  sound h =
      let (some_service, found, rest) = validate_split.0 h in
      let (services, fresh) = (check_services_iff fl [] m.services).0 found in
      let (edges_pass, endpoints_pass, metadata_pass) = (later_checks_iff found_set).0 rest in
      let (names, edges, edges_fresh) = (check_edges_iff fl found_set [] m.edges).0 edges_pass in
      let (enters, endpoints, endpoints_fresh) =
        (check_endpoints_iff fl found_set [] m.endpoints).0 endpoints_pass in
      let same = service_set-SameSet m in
      record {
        nonempty = some_service;
        services = services;
        distinct_services = (Fresh-nil_iff (service_ids m)).0 fresh;
        integrity = record {
          edges =
              All-imp (Names found_set) (Names (service_ids m)) m.edges
                (λ e. Names-SameSet found_set (service_ids m) e same) names;
          endpoints =
              All-imp (Enters found_set) (Enters (service_ids m)) m.endpoints
                (λ e. Enters-SameSet found_set (service_ids m) e same) enters;
        };
        edges = edges;
        distinct_edges = (Fresh-nil_iff (edge_names m.edges)).0 edges_fresh;
        endpoints =
            All-imp (IsEndpointOk fl found_set) (IsEndpointOk fl (service_ids m)) m.endpoints
              (λ e. IsEndpointOk-SameSet fl found_set (service_ids m) e same) endpoints;
        distinct_endpoints = (Fresh-nil_iff (map (λ e. e.id) m.endpoints)).0 endpoints_fresh;
        metadata = (check_metadata_lem fl clock m.metadata).0 metadata_pass;
      }

  complete : IsValid fl clock m → validate_semantic fl clock m ≡ ok tt
  complete v =
      let same : SameSet (service_ids m) found_set = λ k. sym (service_set-SameSet m k) in
      let ids = service_ids m in
      validate_split.1 (
        v.nonempty,
        (check_services_iff fl [] m.services).1
            (v.services, (Fresh-nil_iff ids).1 v.distinct_services),
        (later_checks_iff found_set).1 (
          (check_edges_iff fl found_set [] m.edges).1 (
            All-imp (Names ids) (Names found_set) m.edges (λ e. Names-SameSet ids found_set e same)
                v.integrity.edges,
            v.edges,
            (Fresh-nil_iff (edge_names m.edges)).1 v.distinct_edges,
          ),
          (check_endpoints_iff fl found_set [] m.endpoints).1 (
            All-imp (Enters ids) (Enters found_set) m.endpoints
                (λ e. Enters-SameSet ids found_set e same) v.integrity.endpoints,
            All-imp (IsEndpointOk fl ids) (IsEndpointOk fl found_set) m.endpoints
                (λ e. IsEndpointOk-SameSet fl ids found_set e same) v.endpoints,
            (Fresh-nil_iff (map (λ e. e.id) m.endpoints)).1 v.distinct_endpoints,
          ),
          (check_metadata_lem fl clock m.metadata).1 v.metadata,
        ),
      )

  -- `ValidateSemantic` returns no error exactly for the models that are valid: with services, each
  -- with a name of its own and a replica; edges and endpoints that refer to those services and are
  -- named apart; and readable metadata.
  pub validate_semantic_iff : (validate_semantic fl clock m ≡ ok tt) ↔ IsValid fl clock m
  validate_semantic_iff = (sound, complete)
