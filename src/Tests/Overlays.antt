-- ===== src/Tests/Overlays.antt =====
-- The overlays of a shop.
use bering.Prelude.{true, ◌≡◌, refl, some, none, List, [], ◌∷◌, All, ok}
use bering.Go.Float.{thousandths}
use bering.Go.Int.{pos, add}
use bering.Go.Map.{lookup, put, has, contains}
use bering.Snapshot.Types.{EdgeRecord, EndpointRecord, OverlayApplication}
use bering.Overlay.Types as Overlay
use bering.Discovery.Positions.{
  Layers, found, positions_of, positions, merge_at, merge_both, nth, set,
}
use bering.Discovery.Merge.{
  ensure, merge_attributes, merge_common_metadata, merge_reliability_evidence,
  merge_service_metadata,
}
use bering.Discovery.Merge.Policies.{given_or, list_or}
use bering.Discovery.Clone.{clone_placements}
use bering.Discovery.Overlays.{
  apply_overlays, apply_loop, apply_overlay, validate_observation_overlay, check_all, each,
  apply_service, at_positions, overlaid_service, provenance_of, applications_from,
}
use bering.Discovery.Overlays.Keys.{Keeps}
use bering.Discovery.Overlays.Identity.{apply_overlays-Keeps}
use bering.Discovery.Overlays.Resolution.{Unreserved, Resolves, apply_overlays-returns}
use bering.Model.Types as Model
use bering.Tests.Samples.{service_named, shop, service_record, support}
use bering.Tests.Discovery.{texts}

abbrev web_to_cart : EdgeRecord
web_to_cart = record {
  id = "web|cart|sync|true";
  from = "web";
  to = "cart";
  kind = "sync";
  blocking = true;
  identity = none;
  support = support;
  first_seen = "";
  last_seen = "";
  provenance = [];
  metadata = none;
  resilience = none;
  observed = none;
  policy_scope = none;
}

abbrev get_web : EndpointRecord
get_web = record {
  id = "web:GET /";
  entry_service = "web";
  method = "GET";
  path = "/";
  support = support;
  first_seen = "";
  last_seen = "";
  provenance = [];
  metadata = none;
}

abbrev layers : Layers
layers = record {
  services = service_record "web" ∷ service_record "cart" ∷ [];
  edges = web_to_cart ∷ [];
  endpoints = get_web ∷ [];
  model_services = shop.services;
  model_edges = shop.edges;
  model_endpoints = shop.endpoints;
}

abbrev no_metadata : Overlay.CommonMetadata
no_metadata = record { common = record { labels = []; tags = []; slo_refs = [] }; attributes = [] }

-- Three replicas of the cart.
abbrev scaled : Overlay.File
scaled = record {
  name = "scale";
  services =
      record {
        id = "cart";
        replicas = some (pos 3);
        reliability = none;
        failure_eligible = none;
        placements = [];
        shared_resource_refs = [];
        metadata = no_metadata;
      }
      ∷ [];
  edges = [];
  endpoints = [];
  ref = "scale.yaml";
}

abbrev unreserved : All Unreserved (scaled ∷ [])
unfolding has
unreserved = (((refl, tt), (tt, tt)), tt)

abbrev resolved : All (Resolves layers) (scaled ∷ [])
unfolding contains
resolved = ((((refl, refl), tt), (tt, tt)), tt)

apply_overlays-returns_example :
    (done : Layers × List OverlayApplication) × (apply_overlays texts thousandths layers
        (scaled ∷ [])
      ≡ ok done)
apply_overlays-returns_example =
    apply_overlays-returns texts thousandths layers (scaled ∷ []) unreserved resolved

abbrev no_common : Model.CommonMetadata
no_common = record { labels = []; tags = []; slo_refs = [] }

abbrev cart_metadata : Model.ServiceMetadata
cart_metadata = record {
  common = no_common;
  reliability = none;
  failure_eligible = none;
  placements = [];
  shared_resource_refs = [];
}

abbrev scaled_layers : Layers
scaled_layers = record layers {
  services =
      service_record "web"
      ∷ record (service_record "cart") {
        replicas = pos 3;
        provenance =
            record { type = "traces"; connector = ""; name = ""; ref = ""; precedence = pos 0 }
            ∷ record {
              type = "overlay";
              connector = "";
              name = "scale";
              ref = "scale.yaml";
              precedence = pos 1;
            }
            ∷ [];
        metadata =
            some
              (record { base = cart_metadata; replicas_override = some (pos 3); attributes = [] });
      }
      ∷ [];
  model_services =
      service_named "web"
      ∷ record (service_named "cart") { replicas = pos 3; metadata = some cart_metadata }
      ∷ [];
}

abbrev applications : List OverlayApplication
applications = record { name = "scale"; ref = "scale.yaml"; precedence = pos 1 } ∷ []

cart_is_scaled :
    apply_overlays texts thousandths layers (scaled ∷ []) ≡ ok (scaled_layers, applications)
unfolding apply_overlays apply_loop apply_overlay validate_observation_overlay check_all each
    apply_service at_positions overlaid_service provenance_of applications_from found positions_of
    positions merge_at merge_both nth set ensure merge_attributes merge_common_metadata
    merge_reliability_evidence merge_service_metadata given_or list_or clone_placements has lookup
    put add
cart_is_scaled = refl

apply_overlays-Keeps_example : Keeps layers scaled_layers
apply_overlays-Keeps_example =
    apply_overlays-Keeps texts thousandths layers (scaled ∷ []) scaled_layers applications
      cart_is_scaled
