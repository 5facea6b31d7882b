-- ===== src/Runtime/Types.antt =====
-- internal/runtime/engine.go: the state of a window; internal/connectors/traces/loader.go: the span.
use bering.Prelude.{String, Bool, Option, List}
use bering.Go.Int.{ℤ}
use bering.Go.Time.{Time}
use bering.Go.Map.{Map}
use bering.Snapshot.Types.{SourceSummary, Envelope}
use bering.Reconciliation.Config.{Config}
use bering.Reconciliation.Types.{Report}
use bering.Reconciliation.Projection.{ProcessError}
use bering.Reconciliation.Process.{Reconciler}

-- A span; `Value` is the type of an attribute, which the engine never looks at.
pub record Span (Value : Type 0) : Type 0 where
  pub trace_id : String
  pub span_id : String
  pub parent_span_id : String
  pub source_ref : String
  pub source_kind : String
  pub source_connector : String
  pub source_domain : String
  pub service : String
  pub name : String
  pub kind : String
  pub scope_name : String
  pub scope_version : String
  pub start_time : Time
  pub end_time : Time
  pub attributes : Map Value
  pub resource_attributes : Map Value
  pub attribute_conflicts : List String

-- `traces` is a set of texts.
pub record WindowState (Value : Type 0) : Type 0 where
  pub start : Time
  pub end : Time
  pub spans : List (Span Value)
  pub traces : List String
  pub sources : Map SourceSummary
  pub dropped : ℤ
  pub late : ℤ

-- The settings of the engine, less the sink, the metrics, the logs and the clock, which the host of
-- the engine provides, and the overlays, which only the discovery reads.
pub record EngineConfig : Type 0 where
  pub publication_mode : String
  pub window_size : ℤ
  pub max_in_memory_spans : ℤ
  pub late_span_policy : String
  pub source_ref : String
  pub sources : List SourceSummary
  pub reconciliation_config : Config
  pub reconciliation_report_path : String
  pub reconciliation_summary_path : String
  pub raw_window_path : String
  pub stable_core_path : String

pub data EngineError : Type 0 where
  batch_closed : EngineError
  capacity_exceeded : ℤ → ℤ → ℤ → EngineError
  close_precedes_start : EngineError
  not_discovered not_digested : EngineError
  not_reconciled : ProcessError → EngineError
  report_not_written summary_not_written raw_window_not_written stable_core_not_written :
      EngineError
  sink_failed : EngineError

-- The state of the engine. There is no latest report before the first one.
pub record Engine (Value : Type 0) : Type 0 where
  pub cfg : EngineConfig
  pub current : WindowState Value
  pub previous : Option Envelope
  pub previous_raw : Option Envelope
  pub previous_stable : Option Envelope
  pub reconciler : Option Reconciler
  pub latest_report : Option Report
  pub closed : Bool
  pub close_err : Option EngineError
  pub terminal_err : Option EngineError
