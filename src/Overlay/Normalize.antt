-- ===== src/Overlay/Normalize.antt =====
-- internal/overlay/overlay.go: `File.Normalize` and `FromReplicas`. What package filepath makes of the
-- path of the file is an argument. Where the source stops in the middle of a loop with an error, the
-- file is dropped, as its only callers drop it.
pub mod Identified
use bering.Prelude.{
  ℕ, suc, String, ◌<>◌, Bool, true, false, ◌||◌, Option, none, some, List, [], ◌∷◌, map,
  if◌then◌else◌, Result, ok, ◌>>=◌, ◌>>◌, fail_if,
}
use bering.Go.Int
use bering.Go.Int.{ℤ, pos}
use bering.Go.Float.{FloatOps}
use bering.Go.Text.{trim_space, is_blank, to_upper}
use bering.Go.Text.Fields.{has_prefix}
use bering.Go.Map.{Map, put, contains}
use bering.Model.Normalize.Texts.{edge_id_with_identity}
use bering.Model.Normalize.Methods.{
  normalize_common, normalize_reliability, normalize_placement, normalize_identity,
  normalize_resilience, normalize_observed, normalize_policy_scope, normalize_semantics,
}
use bering.Overlay.Types.{CommonMetadata, ServiceOverlay, EdgeOverlay, EndpointOverlay, File}

pub data FileError : Type 0 where
  empty_service_id : ℕ → FileError
  replicas_too_few : String → FileError
  edge_without_id : ℕ → FileError
  endpoint_without_id : ℕ → FileError

-- The path, made clean and with slashes, and its last part without the extension.
pub record FilePath : Type 0 where
  pub clean : String
  pub base : String

-- `if x != nil { x.Normalize() }`
abbrev pub changed {ℓ} : {A : Type ℓ} → (A → A) → Option A → Option A
changed f none = none
changed f (some a) = some (f a)

unfoldable pub normalize_path : String → String
normalize_path given =
    let path = trim_space given in
    if is_blank path then "" else if has_prefix "/" path then path else "/" <> path

unfoldable pub trim_map : Map String → Map String → Map String
trim_map out [] = out
trim_map out ((key, value) ∷ rest) =
    trim_map
      (if is_blank (trim_space key) then out else put (trim_space key) (trim_space value) out) rest

unfoldable pub normalize_common_metadata : CommonMetadata → CommonMetadata
normalize_common_metadata m = record {
  common = normalize_common m.common;
  attributes = trim_map [] m.attributes;
}

new_non_empty : List String → List String → List String
new_non_empty seen [] = []
new_non_empty seen (value ∷ rest) =
    let trimmed = trim_space value in
    let kept = trimmed ∷ new_non_empty (trimmed ∷ seen) rest in
    let skipped = new_non_empty seen rest in
    if is_blank trimmed || contains seen trimmed then skipped else kept

unfoldable pub dedupe_non_empty : List String → List String
unfolding new_non_empty
dedupe_non_empty values = new_non_empty [] values

unfoldable pub few : Option ℤ → Bool
few none = false
few (some replicas) = Int.le replicas (pos 0)

is_missing : Option Bool → Bool
is_missing none = true
is_missing (some b) = false

is_true : Option Bool → Bool
is_true none = false
is_true (some b) = b

-- The identifier of an edge that is given by what it joins.
unfoldable pub edge_id_of : ℕ → EdgeOverlay → Result FileError String
unfolding is_missing is_true
edge_id_of i item =
    if is_blank item.id
    then fail_if
        (is_blank item.from || is_blank item.to || is_blank item.kind || is_missing item.blocking)
        (edge_without_id i)
      >> ok
          (edge_id_with_identity item.from item.to item.kind (is_true item.blocking) item.identity)
    else ok item.id

unfoldable pub endpoint_id_of : ℕ → EndpointOverlay → Result FileError String
endpoint_id_of i item =
    if is_blank item.id
    then fail_if (is_blank item.entry_service || is_blank item.method || is_blank item.path)
        (endpoint_without_id i)
      >> ok (item.entry_service <> (":" <> (item.method <> (" " <> item.path))))
    else ok item.id

-- The body of a loop, over the items of a list and their positions.
unfoldable pub each {ℓ} :
    {A : Type ℓ} → (ℕ → A → Result FileError A) → ℕ → List A → Result FileError (List A)
each f i [] = ok []
each f i (x ∷ xs) = f i x >>= λ y. each f (suc i) xs >>= λ ys. ok (y ∷ ys)

module _ (fl : FloatOps) where
  unfoldable pub normalize_service : ℕ → ServiceOverlay → Result FileError ServiceOverlay
  unfolding few
  normalize_service i item =
      let id = trim_space item.id in
      fail_if (is_blank id) (empty_service_id i)
      >> fail_if (few item.replicas) (replicas_too_few id)
      >> ok (record item {
        id = id;
        reliability = changed (normalize_reliability fl) item.reliability;
        metadata = normalize_common_metadata item.metadata;
        placements = map (normalize_placement fl) item.placements;
        shared_resource_refs = dedupe_non_empty item.shared_resource_refs;
      })

  trimmed_edge : EdgeOverlay → EdgeOverlay
  trimmed_edge item = record item {
    id = trim_space item.id;
    from = trim_space item.from;
    to = trim_space item.to;
    kind = trim_space item.kind;
    identity = changed normalize_identity item.identity;
  }

  unfoldable pub normalize_edge : ℕ → EdgeOverlay → Result FileError EdgeOverlay
  unfolding trimmed_edge
  normalize_edge i given =
      let item = trimmed_edge given in
      edge_id_of i item >>= λ id. ok (record item {
        id = id;
        reliability = changed (normalize_reliability fl) item.reliability;
        metadata = normalize_common_metadata item.metadata;
        resilience = changed normalize_resilience item.resilience;
        observed = changed (normalize_observed fl) item.observed;
        policy_scope = changed normalize_policy_scope item.policy_scope;
      })

  trimmed_endpoint : EndpointOverlay → EndpointOverlay
  trimmed_endpoint item = record item {
    id = trim_space item.id;
    entry_service = trim_space item.entry_service;
    method = to_upper (trim_space item.method);
    path = normalize_path item.path;
    predicate_ref = trim_space item.predicate_ref;
  }

  unfoldable pub normalize_endpoint : ℕ → EndpointOverlay → Result FileError EndpointOverlay
  unfolding trimmed_endpoint
  normalize_endpoint i given =
      let item = trimmed_endpoint given in
      endpoint_id_of i item >>= λ id. ok (record item {
        id = id;
        semantics = changed (normalize_semantics fl) item.semantics;
        metadata = normalize_common_metadata item.metadata;
      })

  unfoldable pub normalize_file : FilePath → File → Result FileError File
  normalize_file path f =
      let name = trim_space f.name in
      each normalize_service 0 f.services >>= λ services. each normalize_edge 0 f.edges >>= λ edges.
      each normalize_endpoint 0 f.endpoints >>= λ endpoints. ok (record {
        name = if is_blank name then path.base else name;
        services = services;
        edges = edges;
        endpoints = endpoints;
        ref = path.clean;
      })

replicas_of : String × ℤ → ServiceOverlay
replicas_of (id, replicas) = record {
  id = id;
  replicas = some replicas;
  reliability = none;
  failure_eligible = none;
  placements = [];
  shared_resource_refs = [];
  metadata = record { common = record { labels = []; tags = []; slo_refs = [] }; attributes = [] };
}

unfoldable pub from_replicas : Map ℤ → String → File
unfolding replicas_of
from_replicas values ref = record {
  name = "replicas";
  services = map replicas_of values;
  edges = [];
  endpoints = [];
  ref = ref;
}
