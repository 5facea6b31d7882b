-- ===== src/Runtime/Admission.antt =====
-- internal/runtime/engine.go: `IngestWithSource` of a windowed engine, once the windows that were
-- due are flushed: each span is kept, or dropped as late or for want of room.
pub mod Counting
pub mod Buffer
use bering.Prelude.{Bool, List, [], ◌∷◌, length, ◌==◌, if◌then◌else◌}
use bering.Go.Int
use bering.Go.Int.{pos}
use bering.Go.Text.{to_lower}
use bering.Go.Time.{Time, before}
use bering.Snapshot.Types.{SourceSummary}
use bering.Runtime.Types.{Span, WindowState, EngineConfig}
use bering.Runtime.Window.{
  default_source_summary, event_time, merge_window_source_summary, with_source_ref, append_span,
}

-- `strings.EqualFold(policy, "drop")`: no letter of the word has a case beyond ASCII.
drops_late : EngineConfig → Bool
drops_late cfg = to_lower cfg.late_span_policy == "drop"

module _ {Value : Type 0} where
  -- An eBPF export belongs to the window of its arrival.
  admission_time : Span Value → Time → Time
  admission_time span received_at =
      if span.source_kind == "ebpf" then received_at else event_time span received_at

  drop_span : WindowState Value → WindowState Value
  drop_span current = record current { dropped = Int.add current.dropped (pos 1) }

  count_late : WindowState Value → WindowState Value
  count_late current = record current { late = Int.add current.late (pos 1) }

  -- The test of the buffer and what follows it.
  unfoldable pub keep_span : EngineConfig → WindowState Value → Span Value → WindowState Value
  unfolding drop_span
  keep_span cfg current span =
      if Int.le cfg.max_in_memory_spans (pos (length current.spans))
      then drop_span current
      else append_span current span

  -- The body of the loop.
  unfoldable pub admit_span :
      EngineConfig → Time → WindowState Value → Span Value → WindowState Value
  unfolding drops_late admission_time drop_span count_late
  admit_span cfg received_at current span =
      if before (admission_time span received_at) current.start
      then (if drops_late cfg
          then drop_span (count_late current)
          else keep_span cfg (count_late current) span)
      else keep_span cfg current span

  unfoldable pub admit_spans :
      EngineConfig
      → Time
      → SourceSummary
      → WindowState Value
      → List (Span Value)
      → WindowState Value
  admit_spans cfg received_at source current [] = current
  admit_spans cfg received_at source current (span ∷ rest) =
      admit_spans cfg received_at source
        (admit_span cfg received_at current (with_source_ref source span)) rest

  unfoldable pub ingest_window :
      EngineConfig
      → WindowState Value
      → List (Span Value)
      → Time
      → SourceSummary
      → WindowState Value
  ingest_window cfg current spans received_at source =
      let source' = default_source_summary source cfg.sources in
      admit_spans cfg received_at source'
        (merge_window_source_summary current source' (pos (length spans))) spans
