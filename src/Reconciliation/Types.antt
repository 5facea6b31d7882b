-- ===== src/Reconciliation/Types.antt =====
-- internal/reconciliation/types.go: the types of the reconciler. The texts of `Kind` and
-- `Lifecycle` are the constructors here; a persisted state holds no other text.
use bering.Prelude.{String, Bool, true, false, Option, List, []}
use bering.Go.Int.{ℤ, pos}
use bering.Go.Float.{Float, FloatOps}
use bering.Go.Time.{Time}
use bering.Go.Map.{Map}
use bering.Model.Types.{Service, Edge, Endpoint, ResilienceModel}
use bering.Snapshot.Types.{
  ServiceRecord, EdgeRecord, EndpointRecord, IngestSummary, Counts, CoverageSummary, SourceSummary,
  DiffSummary, DiscoveryDetails,
}
use bering.Discovery.Types as Discovery

pub data Kind : Type 0 where
  service edge endpoint : Kind

pub data Lifecycle : Type 0 where
  candidate active stale retired : Lifecycle

-- `a == b`
abbrev pub same_lifecycle : Lifecycle → Lifecycle → Bool
same_lifecycle candidate candidate = true
same_lifecycle active active = true
same_lifecycle stale stale = true
same_lifecycle retired retired = true
same_lifecycle _ _ = false

pub data ProjectionName : Type 0 where
  raw_window stable_core guardrail_union : ProjectionName

pub record Observation : Type 0 where
  pub window_start : Time
  pub window_end : Time
  pub result : Discovery.Result
  pub ingest : IngestSummary

pub record Versions : Type 0 where
  pub observation_version : ℤ
  pub stable_core_version : ℤ
  pub guardrail_union_version : ℤ

pub record Projection : Type 0 where
  pub name : ProjectionName
  pub model : ResilienceModel
  pub discovery : DiscoveryDetails
  pub coverage : CoverageSummary
  pub sources : List SourceSummary
  pub counts : Counts
  pub topology_version : String
  pub changed : Bool
  pub diff : DiffSummary

pub record ProjectionSummary : Type 0 where
  pub name : ProjectionName
  pub counts : Counts
  pub topology_version : String
  pub version : ℤ
  pub changed : Bool
  pub diff : DiffSummary

pub record TelemetryHealth : Type 0 where
  pub score : Float
  pub drop_ratio : Float
  pub late_ratio : Float
  pub volume_ema : Float
  pub volume_ratio : Float
  pub retirement_frozen : Bool
  pub reasons : List String

pub record EntityStateSummary : Type 0 where
  pub kind : Kind
  pub id : String
  pub lifecycle : Lifecycle
  pub existence_confidence : Float
  pub activity_confidence : Float
  pub observed_windows : ℤ
  pub opportunity_windows : ℤ
  pub miss_streak : ℤ
  pub last_seen_window : ℤ
  pub gap_ema : Float
  pub source_strength : Float
  pub observed_current : Bool
  pub opportunity_current : Bool
  pub qualified_miss : Bool
  pub soft_threshold : ℤ
  pub hard_threshold : ℤ
  pub reason : String

pub record Transition : Type 0 where
  pub kind : Kind
  pub id : String
  pub from : Lifecycle
  pub to : Lifecycle
  pub reason : String

pub record CompactionSummary : Type 0 where
  pub performed : Bool
  pub expired_retired : ℤ
  pub trimmed_per_kind : ℤ
  pub trimmed_overall : ℤ

pub record Report : Type 0 where
  pub format_version : ℤ
  pub window_start : String
  pub window_end : String
  pub versions : Versions
  pub telemetry_health : TelemetryHealth
  pub transitions : List Transition
  pub projections : List ProjectionSummary
  pub entities : List EntityStateSummary
  pub compaction : CompactionSummary
  pub load_warnings : List String

pub record Result : Type 0 where
  pub raw_window : Projection
  pub stable_core : Projection
  pub guardrail_union : Projection
  pub report : Report

pub record EntitySnapshot : Type 0 where
  pub kind : Kind
  pub id : String
  pub service : Option Service
  pub edge : Option Edge
  pub endpoint : Option Endpoint
  pub service_record : Option ServiceRecord
  pub edge_record : Option EdgeRecord
  pub endpoint_record : Option EndpointRecord

pub record EntityState : Type 0 where
  pub kind : Kind
  pub id : String
  pub lifecycle : Lifecycle
  pub existence_confidence : Float
  pub activity_confidence : Float
  pub observed_windows : ℤ
  pub opportunity_windows : ℤ
  pub miss_streak : ℤ
  pub last_seen_window : ℤ
  pub last_opportunity : ℤ
  pub gap_ema : Float
  pub source_strength : Float
  pub retired_at : String
  pub updated_at : String
  pub reason : String
  pub service : Option Service
  pub edge : Option Edge
  pub endpoint : Option Endpoint
  pub service_record : Option ServiceRecord
  pub edge_record : Option EdgeRecord
  pub endpoint_record : Option EndpointRecord

pub record PersistedState : Type 0 where
  pub format_version : ℤ
  pub versions : Versions
  pub stable_core_topology_hash : String
  pub guardrail_union_topology_hash : String
  pub volume_ema : Float
  pub last_compaction_version : ℤ
  pub services : Map EntityState
  pub edges : Map EntityState
  pub endpoints : Map EntityState

abbrev pub default_format_version : ℤ
default_format_version = pos 1

-- `newPersistedState`
unfoldable pub new_persisted_state : FloatOps → PersistedState
new_persisted_state fl = record {
  format_version = default_format_version;
  versions = record {
    observation_version = pos 0;
    stable_core_version = pos 0;
    guardrail_union_version = pos 0;
  };
  stable_core_topology_hash = "";
  guardrail_union_topology_hash = "";
  volume_ema = fl.decimal 0 0;
  last_compaction_version = pos 0;
  services = [];
  edges = [];
  endpoints = [];
}
