-- ===== src/Discovery/Scan/Linking.antt =====
-- discovery.go: the two loops over the spans, and the services of what they find.
use bering.Prelude.{
  ◌≡◌, refl, subst, String, Bool, true, false, ◌&&◌, ◌||◌, not, Option, none, some, List, [], ◌∷◌,
  All, arith, Bool-cases, inl, inr, ◌==◌, if◌then◌else◌,
}
use bering.Go.Float.{FloatOps}
use bering.Go.Text.{trim_space, is_blank}
use bering.Go.Map.{Map, lookup, has, All-put, All-lookup, has-put}
use bering.Model.Types.{Endpoint, EdgeKind, EdgeIdentity}
use bering.Runtime.Types.{Span}
use bering.Discovery.Attributes.{Texts, parent_span}
use bering.Discovery.Accumulate.{
  ServiceAccumulator, EdgeAccumulator, EndpointAccumulator, edge_start, endpoint_start,
  update_service_accumulator, update_edge_accumulator, update_endpoint_accumulator,
}
use bering.Discovery.Infer.{infer_endpoint, infer_endpoint_details, endpoint_of}
use bering.Discovery.Scan.{
  Links, count_service, count_services, count_edge, link, enter, link_span, link_spans,
}

module _ {Value : Type 0} where
  -- A span of the list has this service.
  abbrev pub served : List (Span Value) → String → Bool
  served [] k = false
  served (span ∷ rest) k =
      (not (is_blank (trim_space span.service)) && trim_space span.service == k) || served rest k

  module _ (texts : Texts Value) (fl : FloatOps) (runtime_mode : Bool) where
    pub has-count_services :
        (spans : List (Span Value)) (stats : Map ServiceAccumulator) (k : String)
        → has k (count_services texts fl runtime_mode spans stats) ≡ (served spans k || has k stats)
    unfolding count_services count_service
    has-count_services [] stats k = refl
    has-count_services (span ∷ rest) stats k =
        elim (Bool-cases (is_blank (trim_space span.service))) [
          | inl blank ↦ rw blank (has-count_services rest stats k)
          | inr full ↦ rw full (
              ground (
                arith,
                has-count_services rest (count_service texts fl runtime_mode stats span) k,
                has-put (trim_space span.service) k
                    (update_service_accumulator texts (lookup (trim_space span.service) stats) span
                      runtime_mode)
                    stats,
              ))
        ]

    module _ (stats : Map ServiceAccumulator) where
      abbrev pub Holds : String → Type 0
      Holds service = has service stats ≡ true

      abbrev pub Joins : String × EdgeAccumulator → Type 0
      Joins e = Holds e.1.edge.from × Holds e.1.edge.to

      abbrev pub EntersAt : String × EndpointAccumulator → Type 0
      EntersAt e = Holds e.1.endpoint.entry_service

      -- The edges and the endpoints that were found are of the services.
      pub record IsLinked (found : Links) : Type 0 where
        pub edges : All Joins found.edges
        pub endpoints : All EntersAt found.endpoints

      -- A span of a service that was counted, if it has one.
      abbrev pub IsServed : Span Value → Type 0
      IsServed span = is_blank (trim_space span.service) ≡ false → Holds span.service

      started-Joins :
          (key id : String) (parent span : Span Value) (found : Map EdgeAccumulator)
          (o : Option EdgeAccumulator)
          → lookup key found ≡ o
          → Holds parent.service
          → Holds span.service
          → All Joins found
          → (kind : EdgeKind) (blocking : Bool) (identity : Option EdgeIdentity)
          → Joins (key, edge_start texts fl o id parent span kind blocking identity)
      unfolding edge_start
      started-Joins key id parent span found none e hp hs h kind blocking identity = (hp, hs)
      started-Joins key id parent span found (some acc) e hp hs h kind blocking identity =
          All-lookup Joins key found e h

      count_edge-IsLinked :
          (parent span : Span Value) (found : Links)
          → Holds parent.service
          → Holds span.service
          → IsLinked found
          → IsLinked (count_edge texts fl runtime_mode parent span found)
      unfolding count_edge update_edge_accumulator
      count_edge-IsLinked parent span found hp hs h = record {
        edges =
            All-put Joins _ _ found.edges
              (started-Joins _ _ parent span found.edges _ refl hp hs h.edges _ _ _) h.edges;
        endpoints = h.endpoints;
      }

      chosen-IsLinked :
          (b : Bool) (x y : Links)
          → (b ≡ true → IsLinked x)
          → IsLinked y
          → IsLinked (if b then x else y)
      chosen-IsLinked true x y hx hy = hx refl
      chosen-IsLinked false x y hx hy = hy

      link-IsLinked :
          (index : Map (Span Value)) (span : Span Value) (o : Option (Span Value)) (found : Links)
          → ((parent : Span Value) → o ≡ some parent → IsServed parent)
          → Holds span.service
          → IsLinked found
          → IsLinked (link texts fl runtime_mode index span o found)
      unfolding link
      link-IsLinked index span none found hp hs h = h
      link-IsLinked index span (some parent) found hp hs h =
          chosen-IsLinked _ _ found
            (λ all.
              count_edge-IsLinked parent span found (hp parent refl (ground (arith, all))) hs h)
            h

      abbrev EntersIf : Option Endpoint → Type 0
      EntersIf none = Unit
      EntersIf (some endpoint) = Holds endpoint.entry_service

      found_parent :
          (skip : Bool) (key : String) (index : Map (Span Value)) (parent : Span Value)
          → All (λ (e : String × Span Value). IsServed e.1) index
          → (if skip then none else lookup key index) ≡ some parent
          → IsServed parent
      found_parent true key index parent h e = cc
      found_parent false key index parent h e =
          All-lookup (λ (e : String × Span Value). IsServed e.1) key index e h

      started-EntersAt :
          (found : Map EndpointAccumulator) (endpoint : Endpoint) (o : Option EndpointAccumulator)
          → lookup endpoint.id found ≡ o
          → Holds endpoint.entry_service
          → All EntersAt found
          → EntersAt (endpoint.id, endpoint_start texts o endpoint)
      unfolding endpoint_start
      started-EntersAt found endpoint none e hs h = hs
      started-EntersAt found endpoint (some acc) e hs h = All-lookup EntersAt endpoint.id found e h

      enter-IsLinked :
          (span : Span Value) (o : Option Endpoint) (found : Links)
          → ((endpoint : Endpoint) → o ≡ some endpoint → Holds endpoint.entry_service)
          → IsLinked found
          → IsLinked (enter texts fl runtime_mode span o found)
      unfolding enter update_endpoint_accumulator
      enter-IsLinked span none found hs h = h
      enter-IsLinked span (some endpoint) found hs h = record {
        edges = h.edges;
        endpoints =
            All-put EntersAt endpoint.id _ found.endpoints
              (started-EntersAt found.endpoints endpoint _ refl (hs endpoint refl) h.endpoints)
              h.endpoints;
      }

      endpoint_of-enters :
          (span : Span Value) (o : Option (String × String)) (endpoint : Endpoint)
          → endpoint_of texts span o ≡ some endpoint
          → Holds span.service
          → Holds endpoint.entry_service
      unfolding endpoint_of
      endpoint_of-enters span none endpoint e h = cc
      endpoint_of-enters span (some (method, path)) endpoint e h = subst EntersIf e h

      infer_endpoint-enters :
          (span : Span Value) (parent : Option (Span Value)) (endpoint : Endpoint)
          → infer_endpoint texts span parent ≡ some endpoint
          → Holds span.service
          → Holds endpoint.entry_service
      unfolding infer_endpoint
      infer_endpoint-enters span parent endpoint e h =
          endpoint_of-enters span (infer_endpoint_details texts span parent) endpoint e h

      -- A parent is one of the indexed spans.
      parent_span-IsServed :
          (index : Map (Span Value)) (span parent : Span Value)
          → All (λ (e : String × Span Value). IsServed e.1) index
          → parent_span texts span index ≡ some parent
          → IsServed parent
      unfolding parent_span
      parent_span-IsServed index span parent h e =
          found_parent
            (is_blank (trim_space span.trace_id) || is_blank (trim_space span.parent_span_id)) _
            index parent h e

      link_span-IsLinked :
          (index : Map (Span Value)) (found : Links) (span : Span Value)
          → All (λ (e : String × Span Value). IsServed e.1) index
          → IsServed span
          → IsLinked found
          → IsLinked (link_span texts fl runtime_mode index found span)
      unfolding link_span
      link_span-IsLinked index found span hi hs h =
          elim (Bool-cases (is_blank (trim_space span.service))) [
            | inl blank ↦ rw blank h
            | inr full ↦ rw full (
                enter-IsLinked span _ _
                  (λ endpoint inferred. infer_endpoint-enters span _ endpoint inferred (hs full))
                  (link-IsLinked index span _ found
                    (λ parent is_parent. parent_span-IsServed index span parent hi is_parent)
                    (hs full) h))
          ]

      pub link_spans-IsLinked :
          (index : Map (Span Value)) (spans : List (Span Value)) (found : Links)
          → All (λ (e : String × Span Value). IsServed e.1) index
          → All IsServed spans
          → IsLinked found
          → IsLinked (link_spans texts fl runtime_mode index spans found)
      unfolding link_spans
      link_spans-IsLinked index [] found hi hs h = h
      link_spans-IsLinked index (span ∷ rest) found hi hs h =
          link_spans-IsLinked index rest _ hi hs.1 (link_span-IsLinked index found span hi hs.0 h)
