-- ===== src/Tests/Envelopes.antt =====
-- Envelopes at small inputs.
use bering.Prelude.{◌≡◌, refl, ok, some, [], ◌∷◌, ◌↔◌, ◌==◌}
use bering.Go.Float.{thousandths}
use bering.Go.Int.{pos}
use bering.Snapshot.Types.{DiffSummary, Envelope}
use bering.Snapshot.Validate.{validate_semantic}
use bering.Snapshot.Validate.Exact.{IsValid, validate_envelope_iff}
use bering.Snapshot.Diff.{DeepEqual, compute_diff, service_map, diff_added, diff_changed}
use bering.Go.Map.{lookup, put, has, by_key}
use bering.Snapshot.Diff.Names.{IsDiff}
use bering.Snapshot.Diff.Balance.{compute_diff-IsDiff}
use bering.Tests.Samples.{clock, schema, shop, service_record}

-- Records are told apart by their names and the names that they show.
abbrev pub by_name : DeepEqual
by_name = record {
  service = λ a b. a.name == b.name;
  edge = λ a b. a.id == b.id;
  endpoint = λ a b. a.id == b.id;
}

abbrev no_changes : DiffSummary
no_changes = record {
  added_services = pos 0;
  removed_services = pos 0;
  changed_services = pos 0;
  added_edges = pos 0;
  removed_edges = pos 0;
  changed_edges = pos 0;
  added_endpoints = pos 0;
  removed_endpoints = pos 0;
  changed_endpoints = pos 0;
}

abbrev pub before_envelope : Envelope
before_envelope = record {
  snapshot_id = "snap-1";
  topology_version = "sha256:1";
  window_start = "1970-01-01T00:00:00Z";
  window_end = "1970-01-01T00:01:00Z";
  ingest = record { spans = pos 8; traces = pos 4; dropped_spans = pos 0; late_spans = pos 0 };
  counts = record { services = pos 2; edges = pos 1; endpoints = pos 1 };
  coverage = record {
    confidence = 900;
    service_support_min = pos 1;
    edge_support_min = pos 1;
    endpoint_support_min = pos 1;
  };
  sources = [];
  diff = no_changes;
  discovery = record {
    services = service_record "web" ∷ service_record "cart" ∷ [];
    edges = [];
    endpoints = [];
    overlays = [];
  };
  model = shop;
  metadata = record {
    source_type = "bering";
    source_ref = "bering://serve";
    emitted_at = "1970-01-01T00:01:00Z";
    confidence = 900;
    schema = schema;
  };
}

-- The cart is gone, the mail is new, and the web has another name.
abbrev after_envelope : Envelope
after_envelope = record before_envelope {
  discovery = record before_envelope.discovery {
    services = record (service_record "web") { name = "front" } ∷ service_record "mail" ∷ [];
  };
}

services_are_compared :
    let d = compute_diff by_name (some before_envelope) after_envelope in
    (d.added_services ≡ pos 1) × (d.removed_services ≡ pos 1) × (d.changed_services ≡ pos 1)
unfolding compute_diff service_map diff_added diff_changed lookup put has by_key
services_are_compared = (refl, refl, refl)

validate_envelope_iff_example :
    (validate_semantic thousandths clock before_envelope ≡ ok tt)
    ↔ IsValid thousandths clock before_envelope
validate_envelope_iff_example = validate_envelope_iff thousandths clock before_envelope

compute_diff-IsDiff_example :
    let d = compute_diff by_name (some before_envelope) after_envelope in
    let p = before_envelope.discovery in
    let c = after_envelope.discovery in
    IsDiff
      (λ r. r.id)
      by_name.service
      p.services
      c.services
      d.added_services
      d.removed_services
      d.changed_services
    × IsDiff (λ r. r.id) by_name.edge p.edges c.edges d.added_edges d.removed_edges d.changed_edges
    × IsDiff
        (λ r. r.id)
        by_name.endpoint
        p.endpoints
        c.endpoints
        d.added_endpoints
        d.removed_endpoints
        d.changed_endpoints
compute_diff-IsDiff_example = compute_diff-IsDiff by_name before_envelope after_envelope
