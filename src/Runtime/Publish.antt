-- ===== src/Runtime/Publish.antt =====
-- internal/runtime/engine.go: `flushReconciled`, `writePrimarySnapshot` and the part of
-- `flushCurrent` that discovers and publishes a window. The metrics and the logs are not modelled.
pub mod Outcome
pub mod Views
pub mod Once
use bering.Prelude.{
  String, Bool, true, false, Option, none, some, [], is_empty, ◌==◌, if◌then◌else◌, Result, ok, err,
}
use bering.Go.Int.{ℤ, pos}
use bering.Go.Float.{FloatOps}
use bering.Go.Text.{trim_space, is_blank}
use bering.Go.Time.{Time}
use bering.Snapshot.Types.{Envelope}
use bering.Discovery.Types as Discovery
use bering.Reconciliation.Types as Types
use bering.Reconciliation.Types.{Projection, ProjectionName, Report}
use bering.Reconciliation.Projection.{ProcessError}
use bering.Reconciliation.Process.{Reconciler, process}
use bering.Runtime.Types.{
  WindowState, EngineConfig, EngineError, not_discovered, not_digested, not_reconciled,
  report_not_written, summary_not_written, raw_window_not_written, stable_core_not_written,
  sink_failed, Engine,
}
use bering.Runtime.Envelope.{
  current_sources, ingest_of, build_snapshot_envelope, build_projection_snapshot,
}
use bering.Runtime.Session.{
  ProjectionView, published, reported, summarized, viewed, Options, Host, Call, return, ◌then◌,
  modify, required, clock, write, write_unless,
}

-- The zero value of a discovery's result.
unfoldable pub no_result : FloatOps → Discovery.Result
no_result fl = record {
  model = record {
    services = [];
    edges = [];
    endpoints = [];
    metadata = record {
      source_type = "";
      source_ref = "";
      discovered_at = "";
      confidence = fl.decimal 0 0;
      schema = record { name = ""; version = ""; uri = ""; digest = "" };
    };
  };
  discovery = record { services = []; edges = []; endpoints = []; overlays = [] };
  sources = [];
  coverage = record {
    confidence = fl.decimal 0 0;
    service_support_min = pos 0;
    edge_support_min = pos 0;
    endpoint_support_min = pos 0;
  };
  span_count = pos 0;
  trace_count = pos 0;
}

module _ {Value : Type 0} where
  module _ (host : Host Value) where
    unfoldable pub write_primary_snapshot : Envelope → Call Value Unit
    write_primary_snapshot env = write host sink_failed (published env) then λ _.
        clock host then λ _. modify λ e. record e { previous = some env }

    unfoldable pub view_of :
        ProjectionName → ℤ → ℤ → Bool → String → Option Envelope → ProjectionView
    view_of name observation version available topology_version snapshot = record {
      name = name;
      observation = observation;
      structural_version = version;
      available = available;
      topology_version = topology_version;
      snapshot = snapshot;
    }

    -- A projection that holds services is written with its envelope, which is then kept as the
    -- previous one; of another it is written that it is not available.
    unfoldable pub write_view :
        String
        → EngineError
        → ProjectionName
        → ℤ
        → ℤ
        → Projection
        → Envelope
        → (Envelope → Engine Value → Engine Value)
        → Call Value Unit
    unfolding view_of
    write_view path error name observation version projection env keep =
        let skipped = is_blank (trim_space path) in
        let absent = viewed path (view_of name observation version false "" none) in
        let present =
          viewed path
            (view_of projection.name observation version true env.topology_version (some env)) in
        if is_empty projection.model.services
        then write_unless host skipped error absent
        else (write_unless host skipped error present then λ _. modify (keep env))

    unfoldable pub of_process : Result ProcessError Types.Result → Result EngineError Types.Result
    of_process (ok result) = ok result
    of_process (err e) = err (not_reconciled e)

    -- `e.reconciler.Process(…)`
    unfoldable pub reconcile : Reconciler → Types.Observation → Call Value Types.Result
    unfolding of_process
    reconcile r observation s =
        let (result, r') = process host.float host.external (host.save s.log) r observation in
        (of_process result, record s { engine = record s.engine { reconciler = some r' } })

    unfoldable pub keep_report : Report → Call Value Unit
    keep_report report = modify λ e. record e { latest_report = some report }

    unfoldable pub write_reports : EngineConfig → Report → Call Value Unit
    write_reports cfg report =
        write_unless host (cfg.reconciliation_report_path == "") report_not_written
          (reported cfg.reconciliation_report_path report)
        then λ _.
            write_unless host (is_blank (trim_space cfg.reconciliation_summary_path))
              summary_not_written (summarized cfg.reconciliation_summary_path report)

    -- The guardrail union, which is published unless it holds no service.
    unfoldable pub publish_guardrail_union : Types.Result → Envelope → Call Value Unit
    publish_guardrail_union result env =
        if is_empty result.guardrail_union.model.services
        then keep_report result.report
        else (keep_report result.report then λ _. write_primary_snapshot env)

    unfoldable pub observation_of : WindowState Value → Discovery.Result → Types.Observation
    unfolding ingest_of
    observation_of current result = record {
      window_start = current.start;
      window_end = current.end;
      result = result;
      ingest = ingest_of current;
    }

    -- `e` is the engine when the flush began.
    unfoldable pub flush_reconciled :
        Reconciler → Engine Value → WindowState Value → Discovery.Result → Time → Call Value Unit
    unfolding observation_of
    flush_reconciled r e current discovered started =
        reconcile r (observation_of current discovered) then λ result.
        let report = result.report in
        let snapshot : Projection → Option Envelope → Envelope = λ projection previous.
          build_projection_snapshot host e.cfg current projection previous started in
        write_reports e.cfg report then λ _.
        write_view e.cfg.raw_window_path raw_window_not_written Types.raw_window
          report.versions.observation_version report.versions.observation_version result.raw_window
          (snapshot result.raw_window e.previous_raw)
          (λ env after. record after { previous_raw = some env })
        then λ _.
            write_view e.cfg.stable_core_path stable_core_not_written Types.stable_core
              report.versions.observation_version report.versions.stable_core_version
              result.stable_core (snapshot result.stable_core e.previous_stable)
              (λ env after. record after { previous_stable = some env })
            then λ _. publish_guardrail_union result (snapshot result.guardrail_union e.previous)

    unfoldable pub options_of : Engine Value → WindowState Value → Options
    unfolding current_sources
    options_of e current = record {
      source_ref = e.cfg.source_ref;
      discovered_at = host.external.clock.format current.end;
      sources = current_sources current e.cfg.sources;
      runtime_mode = true;
    }

    -- Without a span there is no discovery, and the result is the zero value.
    unfoldable pub discovered_in : Engine Value → WindowState Value → Call Value Discovery.Result
    unfolding options_of
    discovered_in e current =
        if is_empty current.spans
        then return (no_result host.float)
        else required not_discovered (host.discover current.spans (options_of e current))

    unfoldable pub publish_window :
        Option Reconciler
        → Engine Value
        → WindowState Value
        → Discovery.Result
        → Time
        → Call Value Unit
    publish_window none e current discovered started =
        required not_digested
          (build_snapshot_envelope host e.cfg current discovered e.previous started)
        then λ env. write_primary_snapshot env
    publish_window (some r) e current discovered started =
        flush_reconciled r e current discovered started

    -- `flushCurrent` once the window is replaced; `e` is the engine with the window to publish.
    unfoldable pub flush_window : Engine Value → Call Value Unit
    flush_window e = clock host then λ started. discovered_in e e.current then λ discovered.
        publish_window e.reconciler e e.current discovered started
