-- ===== src/Tests/Spans.antt =====
-- The collection of spans at small inputs.
use bering.Runtime.Admission.{admit_spans, admit_span, keep_span}
use bering.Runtime.Window.{with_source_ref, event_time, merge_window_source_summary, append_span}
use bering.Prelude.{◌≡◌, refl, false, none, List, [], ◌∷◌, length, arith, String}
use bering.Go.Int
use bering.Go.Int.{pos}
use bering.Go.Text.{to_lower}
use bering.Go.Time.{Time}
use bering.Snapshot.Types.{SourceSummary}
use bering.Reconciliation.Config.{Config, default_config}
use bering.Go.Float.{thousandths}
use bering.Runtime.Types.{Span, WindowState, EngineConfig, Engine}
use bering.Runtime.Admission.{ingest_window}
use bering.Runtime.Admission.Counting.{HasRoom, Took, ingest_window-Took}
use bering.Runtime.Shutdown.{ingest_shutdown_batch}
use bering.Runtime.Shutdown.Atomic.{IsWithin, IsAtomic, ingest_shutdown_batch-IsAtomic}

abbrev pub span_at : Time → Span String
span_at t = record {
  trace_id = "t1";
  span_id = "s1";
  parent_span_id = "";
  source_ref = "";
  source_kind = "";
  source_connector = "";
  source_domain = "";
  service = "web";
  name = "GET /";
  kind = "server";
  scope_name = "";
  scope_version = "";
  start_time = 0;
  end_time = t;
  attributes = [];
  resource_attributes = [];
  attribute_conflicts = [];
}

unfoldable pub no_reconciliation : Config
unfolding default_config
no_reconciliation = record (default_config thousandths) { enabled = false }

abbrev pub cfg : EngineConfig
cfg = record {
  publication_mode = "windowed";
  window_size = pos 100;
  max_in_memory_spans = pos 1;
  late_span_policy = "drop";
  source_ref = "bering://runtime";
  sources = [];
  reconciliation_config = no_reconciliation;
  reconciliation_report_path = "";
  reconciliation_summary_path = "";
  raw_window_path = "";
  stable_core_path = "";
}

abbrev pub window : WindowState String
window = record {
  start = 100;
  end = 200;
  spans = [];
  traces = [];
  sources = [];
  dropped = pos 0;
  late = pos 0;
}

abbrev pub source : SourceSummary
source = record { type = "traces"; connector = "otlp"; ref = "otlp://"; observations = pos 0 }

-- A late span, one that fits, and one for which there is no room.
abbrev three : List (Span String)
three = span_at 50 ∷ span_at 150 ∷ span_at 160 ∷ []

three_are_counted :
    let w = ingest_window cfg window three 170 source in
    (length w.spans ≡ 1) × (w.dropped ≡ pos 2) × (w.late ≡ pos 1)
unfolding ingest_window admit_spans admit_span with_source_ref event_time
    merge_window_source_summary to_lower keep_span append_span Int.add
three_are_counted = (refl, refl, refl)

ingest_window-Took_example :
    HasRoom cfg 0 (ingest_window cfg window three 170 source)
    × Took (length three) window (ingest_window cfg window three 170 source)
ingest_window-Took_example =
    ingest_window-Took cfg window three 170 source
      (record { within = omega arith; counts = refl; fits = omega arith })

abbrev pub engine : Engine String
engine = record {
  cfg = cfg;
  current = window;
  previous = none;
  previous_raw = none;
  previous_stable = none;
  reconciler = none;
  latest_report = none;
  closed = false;
  close_err = none;
  terminal_err = none;
}

ingest_shutdown_batch-IsAtomic_example :
    IsAtomic engine
      (span_at 150 ∷ [])
      source
      (ingest_shutdown_batch engine (span_at 150 ∷ []) source)
    × IsWithin (ingest_shutdown_batch engine (span_at 150 ∷ []) source).1
ingest_shutdown_batch-IsAtomic_example =
    ingest_shutdown_batch-IsAtomic engine (span_at 150 ∷ []) source
      (record { positive = refl; is_int = omega arith; spans = omega arith })
