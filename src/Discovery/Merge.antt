-- ===== src/Discovery/Merge.antt =====
-- internal/discovery/discovery.go: what an overlay does to one service, edge or endpoint, and to its
-- record. The metadata that `ensure…Metadata` makes is empty; what the overlay gives replaces what is
-- there, labels and attributes key by key, while tags are joined.
pub mod Policies
use bering.Prelude.{String, Option, none, some, List, [], ◌∷◌, ◌++◌, is_empty, if◌then◌else◌}
use bering.Go.Float.{FloatOps}
use bering.Go.Text.{trim_space, is_blank, to_upper, to_lower}
use bering.Go.Map.{Map, put}
use bering.Model.Types as Model
use bering.Model.Types.{ReliabilityEvidence, EndpointSemantics, Service, Edge, Endpoint}
use bering.Model.Normalize.Methods.{normalize_semantics}
use bering.Snapshot.Types.{
  ServiceRecord, EdgeRecord, EndpointRecord, ServiceMetadata, EdgeMetadata, EndpointMetadata,
}
use bering.Overlay.Types.{ServiceOverlay, EdgeOverlay, EndpointOverlay}
use bering.Discovery.Attributes.{Texts, dedupe_strings, normalize_path}
use bering.Discovery.Clone.{
  clone_edge_identity, clone_reliability, clone_placements, clone_semantics,
}
use bering.Discovery.Merge.Policies.{
  given_or, text_or, list_or, merge_resilience_policy, merge_observed_edge, merge_policy_scope,
}

-- `mergeAttributes`, and the loop over the labels
unfoldable pub merge_attributes : Map String → Map String → Map String
merge_attributes target [] = target
merge_attributes target ((key, value) ∷ rest) = merge_attributes (put key value target) rest

merge_texts : List String → List String → List String
merge_texts target source = if is_empty source then target else dedupe_strings (target ++ source)

unfoldable pub merge_common_metadata :
    Model.CommonMetadata → Model.CommonMetadata → Model.CommonMetadata
unfolding merge_texts
merge_common_metadata target source = record {
  labels = merge_attributes target.labels source.labels;
  tags = merge_texts target.tags source.tags;
  slo_refs = merge_texts target.slo_refs source.slo_refs;
}

abbrev no_common : Model.CommonMetadata
no_common = record { labels = []; tags = []; slo_refs = [] }

abbrev no_service_metadata : Model.ServiceMetadata
no_service_metadata = record {
  common = no_common;
  reliability = none;
  failure_eligible = none;
  placements = [];
  shared_resource_refs = [];
}

abbrev no_edge_metadata : Model.EdgeMetadata
no_edge_metadata = record { common = no_common; weight = none; reliability = none }

abbrev no_endpoint_metadata : Model.EndpointMetadata
no_endpoint_metadata = record { common = no_common; weight = none; semantics = none }

-- The metadata that is there, or empty metadata.
unfoldable pub ensure {ℓ} : {A : Type ℓ} → A → Option A → A
ensure empty none = empty
ensure empty (some metadata) = metadata

module _ (fl : FloatOps) where
  unfoldable pub merge_reliability_evidence :
      Option ReliabilityEvidence → Option ReliabilityEvidence → Option ReliabilityEvidence
  merge_reliability_evidence target none = target
  merge_reliability_evidence target (some source) = clone_reliability fl (some source)

  unfoldable pub merge_endpoint_semantics :
      Option EndpointSemantics → Option EndpointSemantics → Option EndpointSemantics
  merge_endpoint_semantics target none = target
  merge_endpoint_semantics none (some source) = clone_semantics fl (some source)
  merge_endpoint_semantics (some target) (some source) = some (
      normalize_semantics fl (record {
        predicate_mode =
            if is_blank (trim_space source.predicate_mode)
            then target.predicate_mode
            else to_lower (trim_space source.predicate_mode);
        mandatory_targets = list_or target.mandatory_targets source.mandatory_targets;
        dependency_modes = list_or target.dependency_modes source.dependency_modes;
        source = text_or target.source source.source;
        confidence = given_or target.confidence source.confidence;
      }))

  -- What both the record and the model take of a service.
  service_base : Model.ServiceMetadata → ServiceOverlay → Model.ServiceMetadata
  service_base m item = record {
    common = merge_common_metadata m.common item.metadata.common;
    reliability = merge_reliability_evidence m.reliability item.reliability;
    failure_eligible = given_or m.failure_eligible item.failure_eligible;
    placements = list_or m.placements (clone_placements fl item.placements);
    shared_resource_refs = list_or m.shared_resource_refs item.shared_resource_refs;
  }

  merged_service_metadata : ServiceMetadata → ServiceOverlay → ServiceMetadata
  unfolding service_base
  merged_service_metadata m item = record {
    base = service_base m.base item;
    replicas_override = given_or m.replicas_override item.replicas;
    attributes = merge_attributes m.attributes item.metadata.attributes;
  }

  unfoldable pub merge_service_metadata :
      ServiceRecord × Service → ServiceOverlay → ServiceRecord × Service
  unfolding merged_service_metadata service_base
  merge_service_metadata (target, model_target) item = (
    record target {
      metadata = some (
          merged_service_metadata
            (ensure
              (record { base = no_service_metadata; replicas_override = none; attributes = [] })
              target.metadata)
            item);
    },
    record model_target {
      metadata = some (service_base (ensure no_service_metadata model_target.metadata) item);
    },
  )

  edge_base : Model.EdgeMetadata → EdgeOverlay → Model.EdgeMetadata
  edge_base m item = record {
    common = merge_common_metadata m.common item.metadata.common;
    weight = given_or m.weight item.weight;
    reliability = merge_reliability_evidence m.reliability item.reliability;
  }

  merged_edge_metadata : EdgeMetadata → EdgeOverlay → EdgeMetadata
  unfolding edge_base
  merged_edge_metadata m item = record {
    base = edge_base m.base item;
    attributes = merge_attributes m.attributes item.metadata.attributes;
  }

  -- `if item.Identity != nil && modelTarget.Identity == nil`: the identities of the record and of the
  -- model.
  merged_identity :
      Option Model.EdgeIdentity
      → Option Model.EdgeIdentity
      → Option Model.EdgeIdentity
      → Option Model.EdgeIdentity × Option Model.EdgeIdentity
  merged_identity recorded none (some given) =
      (clone_edge_identity (clone_edge_identity (some given)), clone_edge_identity (some given))
  merged_identity recorded held _ = (recorded, held)

  unfoldable pub merge_edge_metadata : EdgeRecord × Edge → EdgeOverlay → EdgeRecord × Edge
  unfolding merged_edge_metadata edge_base merged_identity
  merge_edge_metadata (target, model_target) item =
      let identities = merged_identity target.identity model_target.identity item.identity in
      (
        record target {
          identity = identities.0;
          metadata = some (
              merged_edge_metadata
                (ensure (record { base = no_edge_metadata; attributes = [] }) target.metadata)
                item);
          resilience = merge_resilience_policy target.resilience item.resilience;
          observed = merge_observed_edge fl target.observed item.observed;
          policy_scope = merge_policy_scope target.policy_scope item.policy_scope;
        },
        record model_target {
          identity = identities.1;
          metadata = some (edge_base (ensure no_edge_metadata model_target.metadata) item);
          resilience = merge_resilience_policy model_target.resilience item.resilience;
          observed = merge_observed_edge fl model_target.observed item.observed;
          policy_scope = merge_policy_scope model_target.policy_scope item.policy_scope;
        },
      )

  endpoint_base : Model.EndpointMetadata → EndpointOverlay → Model.EndpointMetadata
  endpoint_base m item = record {
    common = merge_common_metadata m.common item.metadata.common;
    weight = given_or m.weight item.weight;
    semantics = merge_endpoint_semantics m.semantics item.semantics;
  }

  merged_endpoint_metadata : EndpointMetadata → EndpointOverlay → EndpointMetadata
  unfolding endpoint_base
  merged_endpoint_metadata m item = record {
    base = endpoint_base m.base item;
    predicate_ref = text_or m.predicate_ref item.predicate_ref;
    attributes = merge_attributes m.attributes item.metadata.attributes;
  }

  module _ {Value : Type 0} (texts : Texts Value) where
    merged_method : String → String → String
    merged_method target method =
        if is_blank (trim_space method) then target else to_upper (trim_space method)

    merged_path : String → String → String
    merged_path target path =
        if is_blank (trim_space path) then target else normalize_path texts path

    unfoldable pub merge_endpoint_metadata :
        EndpointRecord × Endpoint → EndpointOverlay → EndpointRecord × Endpoint
    unfolding merged_endpoint_metadata endpoint_base merged_method merged_path
    merge_endpoint_metadata (target, model_target) item = (
      record target {
        metadata = some (
            merged_endpoint_metadata
              (ensure (record { base = no_endpoint_metadata; predicate_ref = ""; attributes = [] })
                target.metadata)
              item);
        method = merged_method target.method item.method;
        path = merged_path target.path item.path;
      },
      record model_target {
        metadata = some (endpoint_base (ensure no_endpoint_metadata model_target.metadata) item);
        success_predicate_ref = text_or model_target.success_predicate_ref item.predicate_ref;
        method = merged_method model_target.method item.method;
        path = merged_path model_target.path item.path;
      },
    )
