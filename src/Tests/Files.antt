-- ===== src/Tests/Files.antt =====
-- An overlay as it was decoded, and its normal form.
use bering.Prelude.{true, some, none, [], ◌∷◌}
use bering.Go.Int.{pos}
use bering.Overlay.Types as Overlay
use bering.Overlay.Normalize.{FilePath}

abbrev no_metadata : Overlay.CommonMetadata
no_metadata = record { common = record { labels = []; tags = []; slo_refs = [] }; attributes = [] }

abbrev decoded : Overlay.File
decoded = record {
  name = " ";
  services =
      record {
        id = "cart ";
        replicas = some (pos 3);
        reliability = none;
        failure_eligible = none;
        placements = [];
        shared_resource_refs = [];
        metadata = no_metadata;
      }
      ∷ [];
  edges =
      record {
        id = "";
        from = "web";
        to = " cart";
        kind = "sync";
        blocking = some true;
        identity = none;
        weight = none;
        reliability = none;
        resilience = none;
        observed = none;
        policy_scope = none;
        metadata = no_metadata;
      }
      ∷ [];
  endpoints = [];
  ref = "";
}

abbrev normal : Overlay.File
normal = record {
  name = "scale";
  services =
      record {
        id = "cart";
        replicas = some (pos 3);
        reliability = none;
        failure_eligible = none;
        placements = [];
        shared_resource_refs = [];
        metadata = no_metadata;
      }
      ∷ [];
  edges =
      record {
        id = "web|cart|sync|true";
        from = "web";
        to = "cart";
        kind = "sync";
        blocking = some true;
        identity = none;
        weight = none;
        reliability = none;
        resilience = none;
        observed = none;
        policy_scope = none;
        metadata = no_metadata;
      }
      ∷ [];
  endpoints = [];
  ref = "dir/scale.yaml";
}

abbrev path : FilePath
path = record { clean = "dir/scale.yaml"; base = "scale" }
