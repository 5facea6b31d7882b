-- ===== src/Discovery/Attributes.antt =====
-- internal/discovery/discovery.go: what a span and its parent say of an edge and of an endpoint;
-- `oneObservedValue` of ebpf.go. The text of an attribute, the parsing of a URL and the JSON of three
-- texts are parameters.
use bering.Prelude.{
  String, ◌<>◌, Bool, ◌&&◌, ◌||◌, not, Option, none, some, List, [], ◌∷◌, ◌==◌, if◌then◌else◌,
}
use bering.Go.Text.{trim_space, to_lower, to_upper, is_blank}
use bering.Go.Text.Order.{less}
use bering.Go.Text.Fields.{fields, has_prefix, before_char}
use bering.Go.Map.{Map, lookup, contains}
use bering.Go.Sort.{sort}
use bering.Model.Types.{EdgeKind, edge_kind_sync, edge_kind_async}
use bering.Runtime.Types.{Span}

-- `attr` is the text of an attribute, none where it is nil; `url_path` the path of a URL, none where
-- it cannot be parsed; `triple` the JSON of three texts.
pub record Texts (Value : Type 0) : Type 0 where
  pub attr : Value → Option String
  pub url_path : String → Option String
  pub triple : String → String → String → String

is_http_method : String → Bool
is_http_method method =
    contains ("GET" ∷ "POST" ∷ "PUT" ∷ "PATCH" ∷ "DELETE" ∷ "HEAD" ∷ "OPTIONS" ∷ []) method

method_and_path : List String → String × String
unfolding is_http_method
method_and_path (method ∷ path ∷ _) =
    if is_http_method (to_upper method) then (to_upper method, path) else ("", "")
method_and_path _ = ("", "")

unfoldable pub parse_method_and_path_from_span_name : String → String × String
unfolding method_and_path fields
parse_method_and_path_from_span_name name = method_and_path (fields (trim_space name))

-- The trimmed texts that are not blank, each once, in order.
new_texts : List String → List String → List String
new_texts set [] = []
new_texts set (value ∷ rest) =
    let trimmed = trim_space value in
    let kept = trimmed ∷ new_texts (trimmed ∷ set) rest in
    let skipped = new_texts set rest in
    if is_blank trimmed || contains set trimmed then skipped else kept

unfoldable pub dedupe_strings : List String → List String
unfolding new_texts
dedupe_strings values = sort less (new_texts [] values)

some_text : Option String → String
some_text none = ""
some_text (some text) = text

module _ {Value : Type 0} (texts : Texts Value) where
  attr_of : Option Value → String
  unfolding some_text
  attr_of none = ""
  attr_of (some value) = some_text (texts.attr value)

  unfoldable pub attr_string : Map Value → String → String
  unfolding attr_of
  attr_string attrs key = attr_of (lookup key attrs)

  unfoldable pub first_attr : Map Value → List String → String
  first_attr attrs [] = ""
  first_attr attrs (key ∷ keys) =
      let value = trim_space (attr_string attrs key) in
      let rest = first_attr attrs keys in if not (is_blank value) then value else rest

  -- The loop of `oneObservedValue`, which always folds the case here; none is inconsistent.
  observed_from : Map Value → String → List String → Option String
  observed_from attrs value [] = some value
  observed_from attrs value (key ∷ keys) =
      let current = to_lower (trim_space (attr_string attrs key)) in
      let kept = observed_from attrs value keys in
      let taken = observed_from attrs current keys in
      if is_blank current
      then kept
      else if not (is_blank value) && not (value == current)
      then none
      else taken

  unfoldable pub rpc_protocol : Span Value → Option String
  unfolding observed_from
  rpc_protocol span = observed_from span.attributes "" ("rpc.system" ∷ "rpc.system.name" ∷ [])

  url_or : String → Option String → String
  url_or path none = path
  url_or path (some parsed) = parsed

  -- `if url.Parse(path) … { path = parsed.Path }`
  without_host : String → String
  unfolding url_or
  without_host path =
      if has_prefix "http://" path || has_prefix "https://" path
      then url_or path (texts.url_path path)
      else path

  with_slash : String → String
  with_slash path = if is_blank path then "/" else if has_prefix "/" path then path else "/" <> path

  unfoldable pub normalize_path : String → String
  unfolding without_host with_slash url_or
  normalize_path given =
      let path = trim_space given in
      if is_blank path then "" else with_slash (without_host (before_char 63 path))

  unfoldable pub is_async_span : Span Value → Bool
  is_async_span span =
      let kind = to_lower (trim_space span.kind) in
      kind == "producer"
      || kind == "consumer"
      || not (is_blank (attr_string span.attributes "messaging.system"))
      || not (is_blank (attr_string span.attributes "messaging.destination"))
      || not (is_blank (attr_string span.attributes "messaging.operation"))

  present_keys : Map Value → List String → List String
  present_keys attrs [] = []
  present_keys attrs (key ∷ keys) =
      let rest = present_keys attrs keys in
      if not (is_blank (attr_string attrs key)) then key ∷ rest else rest

  unfoldable pub async_evidence : Span Value → List String
  unfolding present_keys
  async_evidence span =
      let kind = to_lower (trim_space span.kind) in
      let keys =
        present_keys span.attributes
          ("messaging.system" ∷ "messaging.destination" ∷ "messaging.operation" ∷ []) in
      if kind == "producer" || kind == "consumer" then ("span.kind=" <> kind) ∷ keys else keys

  unfoldable pub edge_kind : Span Value → Span Value → EdgeKind × List String
  edge_kind parent child =
      if is_async_span parent
      then (edge_kind_async, dedupe_strings ("parent_async_signal" ∷ async_evidence parent))
      else if is_async_span child
      then (edge_kind_async, dedupe_strings ("child_async_signal" ∷ async_evidence child))
      else (edge_kind_sync, "default_sync" ∷ [])

  -- `traceSpanKey`
  unfoldable pub trace_span_key : String → String → String → String
  trace_span_key trace_id span_id domain =
      texts.triple domain (trim_space trace_id) (trim_space span_id)

  unfoldable pub parent_span : Span Value → Map (Span Value) → Option (Span Value)
  unfolding trace_span_key
  parent_span child index =
      if is_blank (trim_space child.trace_id) || is_blank (trim_space child.parent_span_id)
      then none
      else lookup (trace_span_key child.trace_id child.parent_span_id child.source_domain) index
