-- ===== src/Tests/Publication.antt =====
-- The engine's publication at small inputs.
use bering.Prelude.{
  String, ◌≡◌, refl, false, true, none, some, [], ◌∷◌, arith, ◌+◌, ◌*◌, ltb, if◌then◌else◌, ◌==◌,
}
use bering.Go.Float.{thousandths}
use bering.Go.Text.{trim_space, to_lower}
use bering.Go.Time.{Rfc3339}
use bering.Snapshot.Types.{Envelope}
use bering.Snapshot.Validate.Exact.{IsCounted}
use bering.Reconciliation.State.{absent}
use bering.Runtime.Types.{EngineConfig, Engine}
use bering.Runtime.Envelope.{
  parse_seen_time, merge_first_seen, merge_last_seen, build_snapshot_envelope, compare_and_sort,
  carry_forward_observation_times, envelope_of,
}
use bering.Runtime.Envelope.Counted.{build_snapshot_envelope-IsCounted}
use bering.Runtime.Envelope.Seen.{IsEarliest, IsLatest, merge_seen-IsBounded}
use bering.Runtime.Session.{Host, Session, Outcome}
use bering.Runtime.Flush.{flush_due}
use bering.Runtime.Flush.Due.{Returns, flush_due-Returns}
use bering.Runtime.Lifetime.{is_on_shutdown, new_engine, ingest_with_source, flush_due_now, close}
use bering.Runtime.Lifetime.Windowed.{IsWindowed, Keeps}
use bering.Runtime.Lifetime.Reach.{
  Reachable, created, called, closed, opened, Reachable-IsWindowed, Reachable-returns,
}
use bering.Runtime.Lifetime.Batch.{Refines, request, closing, batch-Refines, close_idempotent}
use bering.Runtime.Lifetime.Published.{IsBatch, Reachable-IsBatch}
use bering.Tests.Samples.{external, schema, result}
use bering.Tests.Envelopes.{by_name, before_envelope}
use bering.Tests.Spans.{span_at, cfg, window, source, engine, no_reconciliation}

-- A host on which every write succeeds and each reading of the clock is ten later.
abbrev pub host : Host String
host = record {
  float = thousandths;
  equal = by_name;
  external = external;
  schema = schema;
  now = λ reads. 250 + 10 * reads;
  accepts = λ log output. true;
  save = λ log path state. true;
  discover = λ spans options. some result;
  topology_digest = λ model. some "sha256:1";
  short_digest = λ text. "0123";
}

abbrev session : Session String
session = record {
  engine = record engine { current = record window { spans = span_at 150 ∷ [] } };
  log = [];
  reads = 0;
}

flush_due-Returns_example : Returns host 100 1000 session (flush_due host 1000 session)
flush_due-Returns_example = flush_due-Returns host 100 1000 session refl (omega arith)

abbrev built : Envelope
built = compare_and_sort host (some before_envelope) (
    carry_forward_observation_times external.clock (some before_envelope)
      (envelope_of host cfg window result 250 "sha256:1"))

build_snapshot_envelope-IsCounted_example : IsCounted built
unfolding build_snapshot_envelope
build_snapshot_envelope-IsCounted_example =
    build_snapshot_envelope-IsCounted host cfg window result (some before_envelope) 250 built
      (record { services = refl; edges = refl; endpoints = refl }) refl

-- Two moments and their texts.
abbrev two_moments : Rfc3339
two_moments = record {
  format = λ t. if ltb t 2000000000 then "1" else "2";
  parse = λ s. if s == "1" then some 1000000000 else if s == "2" then some 2000000000 else none;
}

merge_seen-IsBounded_example :
    IsEarliest two_moments 1000000000 2000000000 (merge_first_seen two_moments "1" "2")
    × IsLatest two_moments 1000000000 2000000000 (merge_last_seen two_moments "1" "2")
unfolding parse_seen_time trim_space
merge_seen-IsBounded_example =
    merge_seen-IsBounded two_moments "1" "2" 1000000000 2000000000 refl refl refl refl

-- An engine as it is made at 250, after a request.
abbrev windowed : Engine String
windowed = record engine { current = record window { start = 200; end = 300 } }

is_windowed : is_on_shutdown cfg ≡ false
unfolding is_on_shutdown
is_windowed = refl

made_windowed : Reachable host cfg (opened host windowed 0)
unfolding new_engine to_lower trim_space no_reconciliation
made_windowed = created (λ path. absent) true 250 0 windowed refl

Reachable-IsWindowed_example : IsWindowed host (close host (opened host windowed 0)).1
Reachable-IsWindowed_example =
    Reachable-IsWindowed host cfg is_windowed (called made_windowed closed)

Reachable-returns_example :
    let s = (close host (opened host windowed 0)).1 in
    Keeps host (ingest_with_source host (span_at 150 ∷ []) 400 source s)
    × Keeps host (flush_due_now host s)
Reachable-returns_example =
    Reachable-returns host cfg is_windowed (span_at 150 ∷ []) 400 source
      (called made_windowed closed)

abbrev batch_cfg : EngineConfig
batch_cfg = record cfg { publication_mode = "on_shutdown" }

abbrev batch : Engine String
batch = record engine { cfg = batch_cfg; current = record window { start = 250; end = 250 } }

is_batch : is_on_shutdown batch_cfg ≡ true
unfolding is_on_shutdown
is_batch = refl

made_batch : Reachable host batch_cfg (opened host batch 0)
unfolding new_engine to_lower trim_space no_reconciliation
made_batch = created (λ path. absent) true 250 0 batch refl

batch-Refines_example :
    let s = opened host batch 0 in
    ((outcome : Outcome String Unit) × (ingest_with_source host (span_at 150 ∷ []) 400 source s
        ≡ some outcome)
      × Refines request s.engine outcome)
    × Refines closing s.engine (close host s)
batch-Refines_example =
    batch-Refines host (span_at 150 ∷ []) 400 source (opened host batch 0) is_batch

close_idempotent_example : let s = opened host batch 0 in close host (close host s).1 ≡ close host s
close_idempotent_example = close_idempotent host (opened host batch 0) is_batch

Reachable-IsBatch_example : IsBatch host (close host (opened host batch 0)).1
Reachable-IsBatch_example = Reachable-IsBatch host batch_cfg is_batch (called made_batch closed)
