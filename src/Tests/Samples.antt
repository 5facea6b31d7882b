-- ===== src/Tests/Samples.antt =====
-- Small values that the tests share.
use bering.Prelude.{String, Bool, true, none, some, [], ◌∷◌, ◌==◌, if◌then◌else◌}
use bering.Go.Int.{pos}
use bering.Go.Time.{Rfc3339, unix_epoch}
use bering.Model.Types.{
  Service, Edge, Endpoint, ResilienceModel, Metadata, SchemaRef, edge_kind_sync,
}
use bering.Snapshot.Types.{ServiceRecord, SupportSummary, IngestSummary}
use bering.Discovery.Types as Discovery
use bering.Reconciliation.Types.{
  service, active, EntityState, EntitySnapshot, TelemetryHealth, Observation, PersistedState,
}
use bering.Reconciliation.Projection.{External}

-- Every moment is printed alike, and every text but the empty one is read.
abbrev pub clock : Rfc3339
clock = record {
  format = λ t. "1970-01-01T00:00:00Z";
  parse = λ s. if s == "" then none else some unix_epoch;
}

abbrev pub schema : SchemaRef
schema = record { name = "io.mb3r.bering.model"; version = "1.3.0"; uri = ""; digest = "" }

abbrev pub external : External
external = record { clock = clock; schema = schema; digest = λ shape. some "sha256:0" }

abbrev pub service_named : String → Service
service_named id = record { id = id; name = id; replicas = pos 1; metadata = none }

abbrev pub call : String → String → Edge
call a b = record {
  id = "";
  from = a;
  to = b;
  kind = edge_kind_sync;
  blocking = true;
  identity = none;
  metadata = none;
  resilience = none;
  observed = none;
  policy_scope = none;
}

abbrev pub entry : String → String → Endpoint
entry id s = record {
  id = id;
  entry_service = s;
  success_predicate_ref = "default";
  method = "GET";
  path = "/";
  metadata = none;
}

abbrev pub metadata : Metadata
metadata = record {
  source_type = "bering";
  source_ref = "bering://serve";
  discovered_at = "1970-01-01T00:00:00Z";
  confidence = 900;
  schema = schema;
}

abbrev pub shop : ResilienceModel
shop = record {
  services = service_named "web" ∷ service_named "cart" ∷ [];
  edges = call "web" "cart" ∷ [];
  endpoints = entry "web:GET /" "web" ∷ [];
  metadata = metadata;
}

abbrev pub support : SupportSummary
support = record { observations = pos 8; trace_count = pos 4; evidence = [] }

abbrev pub service_record : String → ServiceRecord
service_record id = record {
  id = id;
  name = id;
  replicas = pos 1;
  support = support;
  first_seen = "";
  last_seen = "";
  provenance =
      record { type = "traces"; connector = ""; name = ""; ref = ""; precedence = pos 0 } ∷ [];
  metadata = none;
}

-- An active service that was seen in window 3.
abbrev pub web_state : EntityState
web_state = record {
  kind = service;
  id = "web";
  lifecycle = active;
  existence_confidence = 900;
  activity_confidence = 800;
  observed_windows = pos 3;
  opportunity_windows = pos 0;
  miss_streak = pos 0;
  last_seen_window = pos 3;
  last_opportunity = pos 0;
  gap_ema = 1000;
  source_strength = 350;
  retired_at = "";
  updated_at = "";
  reason = "";
  service = some (service_named "web");
  edge = none;
  endpoint = none;
  service_record = some (service_record "web");
  edge_record = none;
  endpoint_record = none;
}

abbrev pub web_snapshot : EntitySnapshot
web_snapshot = record {
  kind = service;
  id = "web";
  service = some (service_named "web");
  edge = none;
  endpoint = none;
  service_record = some (service_record "web");
  edge_record = none;
  endpoint_record = none;
}

abbrev pub health : Bool → TelemetryHealth
health frozen = record {
  score = 1000;
  drop_ratio = 0;
  late_ratio = 0;
  volume_ema = 10000;
  volume_ratio = 1000;
  retirement_frozen = frozen;
  reasons = [];
}

abbrev pub ingest : IngestSummary
ingest = record { spans = pos 10; traces = pos 4; dropped_spans = pos 5; late_spans = pos 0 }

abbrev pub empty_state : PersistedState
empty_state = record {
  format_version = pos 1;
  versions = record {
    observation_version = pos 3;
    stable_core_version = pos 1;
    guardrail_union_version = pos 1;
  };
  stable_core_topology_hash = "";
  guardrail_union_topology_hash = "";
  volume_ema = 0;
  last_compaction_version = pos 0;
  services = ("web", web_state) ∷ [];
  edges = [];
  endpoints = [];
}

abbrev pub result : Discovery.Result
result = record {
  model = record shop { edges = []; endpoints = []; services = service_named "web" ∷ [] };
  discovery = record {
    services = service_record "web" ∷ [];
    edges = [];
    endpoints = [];
    overlays = [];
  };
  sources = [];
  coverage = record {
    confidence = 900;
    service_support_min = pos 8;
    edge_support_min = pos 0;
    endpoint_support_min = pos 0;
  };
  span_count = pos 8;
  trace_count = pos 4;
}

abbrev pub observation : Observation
observation = record {
  window_start = unix_epoch;
  window_end = unix_epoch;
  result = result;
  ingest = ingest;
}
