-- ===== src/Discovery/Scan/Integrity.antt =====
-- discovery.go: the services that the edges and endpoints of a discovery name.
use bering.Prelude.{
  ◌≡◌, refl, ◌∙◌, String, Bool, true, false, List, [], ◌∷◌, map, All, arith, eq_refl,
}
use bering.Go.Float.{FloatOps}
use bering.Go.Text.{trim_space, is_blank}
use bering.Go.Map.{Map, has, contains}
use bering.Go.Sort.{contains-sort, All-sort}
use bering.Model.Integrity.{Names, Enters}
use bering.Model.Normalize.Sort.{service_less, edge_less, endpoint_less}
use bering.Runtime.Types.{Span}
use bering.Discovery.Attributes.{Texts}
use bering.Discovery.Accumulate.{ServiceAccumulator, EdgeAccumulator, EndpointAccumulator}
use bering.Discovery.Index.{Marshal, unambiguous_span_index}
use bering.Discovery.Index.Entries.{unambiguous_span_index-AllEntries}
use bering.Discovery.Scan.{
  service_of, edge_of, endpoint_at, count_services, link_spans, nothing_linked, services_of,
  edges_of, endpoints_of,
}
use bering.Discovery.Scan.Linking.{
  served, has-count_services, Joins, EntersAt, IsServed, link_spans-IsLinked,
}

module _ {Value : Type 0} where
  module _ (texts : Texts Value) (fl : FloatOps) (runtime_mode : Bool) where
    contains-services :
        (stats : Map ServiceAccumulator) (k : String)
        → contains (map (λ s. s.id) (map (service_of texts fl runtime_mode) stats)) k ≡ has k stats
    unfolding contains has service_of
    contains-services [] k = refl
    contains-services ((j, stat) ∷ stats) k = ground (arith, contains-services stats k)

    contains-services_of :
        (stats : Map ServiceAccumulator) (k : String)
        → contains (map (λ s. s.id) (services_of texts fl runtime_mode stats)) k ≡ has k stats
    unfolding services_of
    contains-services_of stats k =
        contains-sort (λ s. s.id) service_less k (map (service_of texts fl runtime_mode) stats)
        ∙ contains-services stats k

    module _ (stats : Map ServiceAccumulator) where
      abbrev ids : List String
      ids = map (λ s. s.id) (services_of texts fl runtime_mode stats)

      edges-Names :
          (edges : Map EdgeAccumulator)
          → All (Joins texts fl runtime_mode stats) edges
          → All (Names ids) (map (edge_of texts fl runtime_mode) edges)
      unfolding edge_of
      edges-Names [] h = tt
      edges-Names ((key, stat) ∷ edges) h = (
        (
          contains-services_of stats stat.edge.from ∙ h.0.0,
          contains-services_of stats stat.edge.to ∙ h.0.1,
        ),
        edges-Names edges h.1,
      )

      endpoints-Enters :
          (endpoints : Map EndpointAccumulator)
          → All (EntersAt texts fl runtime_mode stats) endpoints
          → All (Enters ids) (map (endpoint_at texts fl runtime_mode) endpoints)
      unfolding endpoint_at
      endpoints-Enters [] h = tt
      endpoints-Enters ((key, stat) ∷ endpoints) h = (
        contains-services_of stats stat.endpoint.entry_service ∙ h.0,
        endpoints-Enters endpoints h.1,
      )

  -- The name of the service is without blanks around it, as the loaders leave it.
  abbrev pub IsTrimmed : Span Value → Type 0
  IsTrimmed span = trim_space span.service ≡ span.service

  weaken :
      (span : Span Value) (spans rest : List (Span Value))
      → All (λ s. is_blank (trim_space s.service) ≡ false → served spans s.service ≡ true) rest
      → All
          (λ s. is_blank (trim_space s.service) ≡ false → served (span ∷ spans) s.service ≡ true)
          rest
  weaken span spans [] h = tt
  weaken span spans (s ∷ rest) h = (λ full. ground (arith, h.0 full), weaken span spans rest h.1)

  All-served :
      (spans : List (Span Value))
      → All IsTrimmed spans
      → All (λ s. is_blank (trim_space s.service) ≡ false → served spans s.service ≡ true) spans
  All-served [] h = tt
  All-served (span ∷ rest) h = (
    λ full. rw (full, h.0, eq_refl span.service) refl,
    weaken span rest rest (All-served rest h.1),
  )

  module _ (texts : Texts Value) (fl : FloatOps) (runtime_mode : Bool) (json : Marshal Value)
      (spans : List (Span Value)) where
    counted : Map ServiceAccumulator
    counted = count_services texts fl runtime_mode spans []

    served-IsServed :
        (xs : List (Span Value))
        → All (λ s. is_blank (trim_space s.service) ≡ false → served spans s.service ≡ true) xs
        → All (IsServed texts fl runtime_mode counted) xs
    unfolding counted has
    served-IsServed [] h = tt
    served-IsServed (s ∷ xs) h = (
      λ full.
          has-count_services texts fl runtime_mode spans [] s.service ∙ ground (arith, h.0 full),
      served-IsServed xs h.1,
    )

    -- The edges that the spans show join services that the spans show, and the endpoints enter such
    -- services, in the model before it is enriched, if the names of the services have no blanks around
    -- them, as the loaders leave them.
    pub discovered-Joins :
        All IsTrimmed spans
        → let stats = count_services texts fl runtime_mode spans [] in
          let index = (unambiguous_span_index texts json spans).index in
          let found = link_spans texts fl runtime_mode index spans nothing_linked in
          let ids = map (λ s. s.id) (services_of texts fl runtime_mode stats) in
          All (Names ids) (edges_of texts fl runtime_mode found.edges)
          × All (Enters ids) (endpoints_of texts fl runtime_mode found.endpoints)
    unfolding edges_of endpoints_of counted
    discovered-Joins trimmed =
        let index = (unambiguous_span_index texts json spans).index in
        let served = served-IsServed spans (All-served spans trimmed) in
        let linked =
          link_spans-IsLinked texts fl runtime_mode counted index spans nothing_linked
            (unambiguous_span_index-AllEntries texts json _ spans served) served
            (record { edges = tt; endpoints = tt }) in
        (
          All-sort (Names _) edge_less _ (edges-Names texts fl runtime_mode counted _ linked.edges),
          All-sort (Enters _) endpoint_less _
              (endpoints-Enters texts fl runtime_mode counted _ linked.endpoints),
        )
