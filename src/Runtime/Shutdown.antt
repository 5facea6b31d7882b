-- ===== src/Runtime/Shutdown.antt =====
-- internal/runtime/engine.go: `ingestShutdownBatch`, a request to a batch until shutdown.
pub mod Atomic
use bering.Prelude.{Option, none, some, List, [], ◌∷◌, length, if◌then◌else◌}
use bering.Go.Int
use bering.Go.Int.{pos}
use bering.Snapshot.Types.{SourceSummary}
use bering.Runtime.Types.{Span, WindowState, EngineError, batch_closed, capacity_exceeded, Engine}
use bering.Runtime.Window.{
  default_source_summary, merge_window_source_summary, with_source_ref, append_span,
}

module _ {Value : Type 0} where
  unfoldable pub collect : SourceSummary → WindowState Value → List (Span Value) → WindowState Value
  collect source current [] = current
  collect source current (span ∷ rest) =
      collect source (append_span current (with_source_ref source span)) rest

  -- The request when the batch is open and no error has ended it.
  unfoldable pub take_request :
      Engine Value → List (Span Value) → SourceSummary → Option EngineError × Engine Value
  take_request e spans source =
      let retained = pos (length e.current.spans) in
      let incoming = pos (length spans) in
      let full = capacity_exceeded retained incoming e.cfg.max_in_memory_spans in
      let source' = default_source_summary source e.cfg.sources in
      if Int.lt (Int.sub e.cfg.max_in_memory_spans retained) incoming
      then (some full, record e { terminal_err = some full })
      else (
        none,
        record e {
          current = collect source' (merge_window_source_summary e.current source' incoming) spans;
        },
      )

  unfoldable pub unless_ended :
      Option EngineError
      → Engine Value
      → Option EngineError × Engine Value
      → Option EngineError × Engine Value
  unless_ended (some ended) e result = (some ended, e)
  unless_ended none e result = result

  unfoldable pub ingest_shutdown_batch :
      Engine Value → List (Span Value) → SourceSummary → Option EngineError × Engine Value
  unfolding unless_ended
  ingest_shutdown_batch e spans source =
      if e.closed
      then (some batch_closed, e)
      else unless_ended e.terminal_err e (take_request e spans source)
