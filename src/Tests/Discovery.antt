-- ===== src/Tests/Discovery.antt =====
-- The discovery from two spans.
use bering.Go.Map.{delete, put, lookup, contains}
use bering.Discovery.Index.{
  index_loop, index_span, is_named, span_signature, differs, key_of, lesser, Marshal,
  unambiguous_span_index,
}
use bering.Discovery.Attributes.{trace_span_key, Texts}
use bering.Go.Text.Order.{less}
use bering.Discovery.Scan.Support.{Supports, count_services-Supports}
use bering.Prelude.{arith, String, true, ◌≡◌, ◌<>◌, refl, some, none, List, [], ◌∷◌, map, All}
use bering.Go.Float.{thousandths}
use bering.Go.Text.{trim_space}
use bering.Model.Integrity.{Names, Enters}
use bering.Runtime.Types.{Span}
use bering.Discovery.Scan.{
  count_services, link_spans, services_of, edges_of, endpoints_of, nothing_linked,
}
use bering.Discovery.Scan.Integrity.{IsTrimmed, discovered-Joins}
use mathlib.Core.Option
use mathlib.Core.List.{mem-cons_self, mem-cons_of_mem}
use bering.Discovery.Index.Order.{All-IsWithin, unambiguous_span_index_order}
use bering.Discovery.Index.Unambiguous.{Picks, unambiguous_span_index-Picks}
use bering.Tests.Spans.{span_at}

abbrev pub texts : Texts String
texts = record {
  attr = λ value. some value;
  url_path = λ url. none;
  triple = λ a b c. a <> ("|" <> (b <> ("|" <> c)));
}

-- The web calls the cart.
abbrev caller : Span String
caller = span_at 150

abbrev called : Span String
called = record (span_at 160) {
  span_id = "s2";
  parent_span_id = "s1";
  service = "cart";
  name = "GET /cart";
}

abbrev spans : List (Span String)
spans = caller ∷ called ∷ []

abbrev json : Marshal String
json = record {
  span = λ s. s.service <> ("|" <> (s.name <> ("|" <> s.source_ref)));
  context = λ service parent kind name attributes resource.
      some (service <> ("|" <> (parent <> ("|" <> name))));
}

trimmed : All IsTrimmed spans
unfolding trim_space
trimmed = (refl, (refl, tt))

discovered-Joins_example :
    let stats = count_services texts thousandths true spans [] in
    let index = (unambiguous_span_index texts json spans).index in
    let found = link_spans texts thousandths true index spans nothing_linked in
    let ids = map (λ s. s.id) (services_of texts thousandths true stats) in
    All (Names ids) (edges_of texts thousandths true found.edges)
    × All (Enters ids) (endpoints_of texts thousandths true found.endpoints)
discovered-Joins_example = discovered-Joins texts thousandths true json spans trimmed

-- A span that came twice stays in the index; one that came with another name does not.
abbrev renamed : Span String
renamed = record called { name = "POST /cart" }

called_is_indexed :
    lookup "|t1|s2" (unambiguous_span_index texts json (called ∷ spans)).index ≡ some called
unfolding lookup unambiguous_span_index index_loop index_span is_named trim_space contains
    span_signature differs put key_of trace_span_key lesser less
called_is_indexed = refl

renamed_is_not : lookup "|t1|s2" (unambiguous_span_index texts json (renamed ∷ spans)).index ≡ none
unfolding lookup unambiguous_span_index index_loop index_span is_named trim_space contains
    span_signature differs put key_of trace_span_key delete
renamed_is_not = refl

unambiguous_span_index-Picks_example :
    Picks texts json "|t1|s2"
      (called ∷ spans)
      (lookup "|t1|s2" (unambiguous_span_index texts json (called ∷ spans)).index)
unambiguous_span_index-Picks_example =
    unambiguous_span_index-Picks texts json "|t1|s2" (called ∷ spans)

-- The span of a second source agrees, and its text is greater.
abbrev again : Span String
again = record called { source_ref = "b" }

abbrev one_order : List (Span String)
one_order = called ∷ again ∷ []

abbrev other_order : List (Span String)
other_order = again ∷ called ∷ again ∷ []

least_is_kept : lookup "|t1|s2" (unambiguous_span_index texts json other_order).index ≡ some called
unfolding lookup unambiguous_span_index index_loop index_span is_named trim_space contains
    span_signature differs put key_of trace_span_key lesser less
least_is_kept = refl

unambiguous_span_index_order_example :
    Option.map json.span (lookup "|t1|s2" (unambiguous_span_index texts json one_order).index)
    ≡ Option.map json.span (lookup "|t1|s2" (unambiguous_span_index texts json other_order).index)
unambiguous_span_index_order_example =
    unambiguous_span_index_order texts json "|t1|s2" one_order other_order
      (All-IsWithin one_order other_order
        (mem-cons_of_mem again mem-cons_self, (mem-cons_self, tt)))
      (All-IsWithin other_order one_order (
        mem-cons_of_mem called mem-cons_self,
        (mem-cons_self, (mem-cons_of_mem called mem-cons_self, tt)),
      ))

count_services-Supports_example :
    Supports texts thousandths true "web" spans
      (lookup "web" (count_services texts thousandths true spans []))
count_services-Supports_example =
    count_services-Supports texts thousandths true "web" spans (omega arith)
