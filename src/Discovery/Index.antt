-- ===== src/Discovery/Index.antt =====
-- internal/discovery/observations.go: `unambiguousSpanIndex`, with `canonicalSpan` and
-- `spanSignature`. What package json makes of a span is a parameter.
pub mod Slots
pub mod Agreement
pub mod Unambiguous
pub mod Order
pub mod Entries
use bering.Prelude.{
  String, Bool, true, false, ◌&&◌, ◌||◌, not, Option, none, some, List, [], ◌∷◌, is_empty, ◌==◌,
  if◌then◌else◌,
}
use bering.Go.Text.{trim_space, is_blank}
use bering.Go.Text.Order.{less}
use bering.Go.Map.{Map, lookup, put, delete, contains}
use bering.Runtime.Types.{Span}
use bering.Discovery.Attributes.{Texts, trace_span_key}

-- `span` is the JSON of a span, `context` that of its service, parent, kind, name and attributes, none
-- where these have none.
pub record Marshal (Value : Type 0) : Type 0 where
  pub span : Span Value → String
  pub context : String → String → String → String → Map Value → Map Value → Option String

pub record SpanIndex (Value : Type 0) : Type 0 where
  pub index : Map (Span Value)
  pub ambiguous : List String
  pub signatures : Map String

-- `previous, exists := signatures[key]; exists && signature != previous`
unfoldable pub differs : Option String → String → Bool
differs none signature = false
differs (some previous) signature = not (signature == previous)

module _ {Value : Type 0} (texts : Texts Value) (json : Marshal Value) where
  unfoldable pub span_signature : Span Value → Option String
  span_signature s =
      json.context s.service s.parent_span_id s.kind s.name s.attributes s.resource_attributes

  unfoldable pub key_of : Span Value → String
  key_of s = trace_span_key texts s.trace_id s.span_id s.source_domain

  -- `!exists || canonicalSpan(span) < canonicalSpan(previous)`
  unfoldable pub lesser : Span Value → Option (Span Value) → Span Value
  lesser span none = span
  lesser span (some previous) =
      if less (json.span span) (json.span previous) then span else previous

  mark_ambiguous : String → SpanIndex Value → SpanIndex Value
  mark_ambiguous key st = record st { index = delete key st.index; ambiguous = key ∷ st.ambiguous }

  hold : String → Span Value → Option String → SpanIndex Value → SpanIndex Value
  hold key span none st = mark_ambiguous key st
  hold key span (some signature) st =
      if differs (lookup key st.signatures) signature then mark_ambiguous key st else record st {
        index = put key (lesser span (lookup key st.index)) st.index;
        signatures = put key signature st.signatures;
      }

  unfoldable pub is_named : Span Value → Bool
  is_named s = not (is_blank (trim_space s.trace_id) || is_blank (trim_space s.span_id))

  -- The body of the loop.
  unfoldable pub index_span : SpanIndex Value → Span Value → SpanIndex Value
  unfolding mark_ambiguous hold
  index_span st span =
      let key = key_of span in
      if not (is_named span)
      then st
      else if contains st.ambiguous key
      then st
      else if not (is_empty span.attribute_conflicts)
      then mark_ambiguous key st
      else hold key span (span_signature span) st

  unfoldable pub index_loop : List (Span Value) → SpanIndex Value → SpanIndex Value
  index_loop [] st = st
  index_loop (span ∷ rest) st = index_loop rest (index_span st span)

  unfoldable pub unambiguous_span_index : List (Span Value) → SpanIndex Value
  unambiguous_span_index spans =
      index_loop spans (record { index = []; ambiguous = []; signatures = [] })
