-- ===== src/Discovery/Infer.antt =====
-- internal/discovery/discovery.go: the identity of the dependency that a span and its parent show, and
-- the endpoint that a span shows.
use bering.Prelude.{
  String, ◌<>◌, Bool, false, ◌&&◌, ◌||◌, not, Option, none, some, List, [], ◌∷◌, ◌++◌, ◌==◌,
  if◌then◌else◌,
}
use bering.Go.Text.{trim_space, to_lower, to_upper, is_blank, contains_char}
use bering.Go.Text.Fields.{trim_slashes}
use bering.Model.Types.{EdgeIdentity, Endpoint}
use bering.Model.Normalize.Texts.{is_zero_identity}
use bering.Runtime.Types.{Span}
use bering.Model.Normalize.Methods.{normalize_identity}
use bering.Discovery.Attributes.{
  Texts, first_attr, rpc_protocol, normalize_path, parse_method_and_path_from_span_name,
}

module _ {Value : Type 0} (texts : Texts Value) where
  abbrev http_methods : List String
  http_methods = "http.request.method" ∷ "http.method" ∷ []

  abbrev http_routes : List String
  http_routes = "http.route" ∷ "url.path" ∷ "http.target" ∷ []

  abbrev operations : List String
  operations = "rpc.method" ∷ "messaging.operation" ∷ []

  abbrev topics : List String
  topics = "messaging.destination" ∷ "messaging.destination.name" ∷ []

  -- The first text that is not blank.
  first_of : List String → String
  first_of [] = ""
  first_of (text ∷ rest) = let other = first_of rest in if is_blank text then other else text

  unfoldable pub has_http_identity : Span Value → Bool
  has_http_identity span =
      let (method, path) = parse_method_and_path_from_span_name span.name in
      not (is_blank (first_attr texts span.attributes (http_methods ++ http_routes)))
      || (not (is_blank method) && not (is_blank path))

  protocol_of : Span Value → Span Value → Option String → String
  unfolding first_of
  protocol_of parent child none = ""
  protocol_of parent child (some protocol) = first_of (
      protocol
      ∷ first_attr texts child.attributes ("network.protocol.name" ∷ [])
      ∷ (if has_http_identity child || has_http_identity parent then "http" else "")
      ∷ first_attr texts child.attributes ("messaging.system" ∷ [])
      ∷ first_attr texts parent.attributes ("messaging.system" ∷ [])
      ∷ [])

  unfoldable pub infer_dependency_protocol : Span Value → Span Value → String
  unfolding protocol_of
  infer_dependency_protocol parent child = protocol_of parent child (rpc_protocol texts child)

  unfoldable pub infer_dependency_operation : Span Value → Span Value → String
  unfolding first_of
  infer_dependency_operation parent child =
      let (method, path) = parse_method_and_path_from_span_name child.name in
      first_of (
        to_upper (first_attr texts child.attributes http_methods)
        ∷ method
        ∷ first_attr texts child.attributes operations
        ∷ first_attr texts parent.attributes operations
        ∷ [])

  unfoldable pub infer_dependency_route : Span Value → Span Value → String
  unfolding first_of
  infer_dependency_route parent child =
      let (method, path) = parse_method_and_path_from_span_name child.name in
      normalize_path texts (
        first_of (
          first_attr texts child.attributes http_routes
          ∷ path
          ∷ first_attr texts parent.attributes http_routes
          ∷ []))

  unfoldable pub infer_dependency_topic : Span Value → Span Value → String
  unfolding first_of
  infer_dependency_topic parent child =
      first_of
        (first_attr texts child.attributes topics ∷ first_attr texts parent.attributes topics ∷ [])

  unfoldable pub edge_identity : Span Value → Span Value → Option EdgeIdentity
  edge_identity parent child =
      let identity = normalize_identity (record {
        protocol = infer_dependency_protocol parent child;
        operation = infer_dependency_operation parent child;
        route = infer_dependency_route parent child;
        topic = infer_dependency_topic parent child;
        span_kind = child.kind;
      }) in
      if is_zero_identity identity then none else some identity

  -- The endpoint of a gRPC method of an eBPF span.
  grpc_path : String → String → String
  grpc_path method service =
      if not (contains_char 47 method) && not (is_blank service)
      then service <> ("/" <> method)
      else method

  is_server : Span Value → Bool
  is_server span = to_lower span.kind == "server"

  -- `hasParent && parent.Service == span.Service`
  same_service : Span Value → Option (Span Value) → Bool
  same_service span none = false
  same_service span (some parent) = parent.service == span.service

  -- The end of `inferEndpointDetails`, by the attributes of HTTP or the name of the span.
  http_endpoint : Span Value → Option (Span Value) → Option (String × String)
  unfolding first_of is_server same_service
  http_endpoint span parent =
      let (named_method, named_path) = parse_method_and_path_from_span_name span.name in
      let method = first_of (
        to_upper (trim_space (first_attr texts span.attributes http_methods))
        ∷ named_method
        ∷ []) in
      let path =
        normalize_path texts (
          first_of (trim_space (first_attr texts span.attributes http_routes) ∷ named_path ∷ [])) in
      if is_blank method || is_blank path
      then none
      else if not (is_server span) && same_service span parent
      then none
      else some (method, path)

  -- The case of an eBPF span, by its protocol.
  ebpf_endpoint : Span Value → Option (Span Value) → Option String → Option (String × String)
  unfolding http_endpoint grpc_path
  ebpf_endpoint span parent none = none
  ebpf_endpoint span parent (some protocol) =
      let method = first_attr texts span.attributes ("rpc.method" ∷ []) in
      let service = first_attr texts span.attributes ("rpc.service" ∷ []) in
      if protocol == "grpc" && not (is_blank method)
      then some ("GRPC", normalize_path texts ("/" <> trim_slashes (grpc_path method service)))
      else http_endpoint span parent

  unfoldable pub infer_endpoint_details :
      Span Value → Option (Span Value) → Option (String × String)
  unfolding ebpf_endpoint http_endpoint is_server
  infer_endpoint_details span parent =
      if is_blank (trim_space span.service)
      then none
      else if not (span.source_kind == "ebpf")
      then http_endpoint span parent
      else if not (is_server span)
      then none
      else ebpf_endpoint span parent (rpc_protocol texts span)

  unfoldable pub endpoint_of : Span Value → Option (String × String) → Option Endpoint
  endpoint_of span none = none
  endpoint_of span (some (method, path)) =
      let id = span.service <> (":" <> (method <> (" " <> path))) in
      some (record {
        id = id;
        entry_service = span.service;
        success_predicate_ref = id;
        method = method;
        path = path;
        metadata = none;
      })

  unfoldable pub infer_endpoint : Span Value → Option (Span Value) → Option Endpoint
  unfolding endpoint_of infer_endpoint_details
  infer_endpoint span parent = endpoint_of span (infer_endpoint_details span parent)
