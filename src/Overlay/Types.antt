-- ===== src/Overlay/Types.antt =====
-- internal/overlay/overlay.go: the types of an overlay. A field `attributes` beside an embedded struct
-- of the model is kept; the embedded struct is `common`.
use bering.Prelude.{String, Bool, Option, List}
use bering.Go.Int.{ℤ}
use bering.Go.Float.{Float}
use bering.Go.Map.{Map}
use bering.Model.Types as Model

pub record CommonMetadata : Type 0 where
  pub common : Model.CommonMetadata
  pub attributes : Map String

pub record ServiceOverlay : Type 0 where
  pub id : String
  pub replicas : Option ℤ
  pub reliability : Option Model.ReliabilityEvidence
  pub failure_eligible : Option Bool
  pub placements : List Model.Placement
  pub shared_resource_refs : List String
  pub metadata : CommonMetadata

pub record EdgeOverlay : Type 0 where
  pub id : String
  pub from : String
  pub to : String
  pub kind : String
  pub blocking : Option Bool
  pub identity : Option Model.EdgeIdentity
  pub weight : Option Float
  pub reliability : Option Model.ReliabilityEvidence
  pub resilience : Option Model.ResiliencePolicy
  pub observed : Option Model.ObservedEdge
  pub policy_scope : Option Model.PolicyScope
  pub metadata : CommonMetadata

pub record EndpointOverlay : Type 0 where
  pub id : String
  pub entry_service : String
  pub method : String
  pub path : String
  pub predicate_ref : String
  pub semantics : Option Model.EndpointSemantics
  pub weight : Option Float
  pub metadata : CommonMetadata

pub record File : Type 0 where
  pub name : String
  pub services : List ServiceOverlay
  pub edges : List EdgeOverlay
  pub endpoints : List EndpointOverlay
  pub ref : String
