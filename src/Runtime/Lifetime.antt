-- ===== src/Runtime/Lifetime.antt =====
-- internal/runtime/engine.go: `NewEngine`, `IngestWithSource`, `FlushDue`, `Close` and
-- `LatestReconciliationReport`.
pub mod Windowed
pub mod Published
pub mod Closing
pub mod Batch
pub mod Reach
use bering.Prelude.{
  String, Bool, true, false, ◌&&◌, not, Option, none, some, List, ◌==◌, if◌then◌else◌, Result, ok,
  err, ◌>>=◌, ◌>>◌, Checked, fail_if,
}
use mathlib.Core.Option
use bering.Go.Int
use bering.Go.Int.{pos}
use bering.Go.Time.{Time, before, is_zero}
use bering.Snapshot.Types.{SourceSummary}
use bering.Reconciliation.Types.{Report}
use bering.Reconciliation.Process.{Reconciler}
use bering.Reconciliation.State.{NewError, StateFile, new_reconciler}
use bering.Config.{publication_mode_windowed, publication_mode_on_shutdown, known_policy}
use bering.Runtime.Types.{
  Span, WindowState, EngineConfig, EngineError, close_precedes_start, Engine,
}
use bering.Runtime.Admission.{ingest_window}
use bering.Runtime.Shutdown.{ingest_shutdown_batch}
use bering.Runtime.Session.{
  Host, Session, Call, Outcome, continue, return, fail, ◌then◌, modify, clock,
}
use bering.Runtime.Flush.{align_window, window_from, flush_current, flush_due}

pub data NewEngineError : Type 0 where
  mode_unsupported window_size_positive reconciliation_on_shutdown : NewEngineError
  max_in_memory_spans_positive late_span_policy_unsupported sink_required : NewEngineError
  reconciler_failed : NewError → NewEngineError

unfoldable pub with_mode : EngineConfig → EngineConfig
with_mode cfg =
    if cfg.publication_mode == ""
    then record cfg { publication_mode = publication_mode_windowed }
    else cfg

unfoldable pub is_on_shutdown : EngineConfig → Bool
is_on_shutdown cfg = cfg.publication_mode == publication_mode_on_shutdown

unfoldable pub is_windowed : EngineConfig → Bool
is_windowed cfg = cfg.publication_mode == publication_mode_windowed

-- The guards of `NewEngine`.
unfoldable pub check_engine_config : Bool → EngineConfig → Checked NewEngineError
unfolding is_on_shutdown is_windowed known_policy
check_engine_config has_sink cfg = do
  fail_if (not (is_windowed cfg) && not (is_on_shutdown cfg)) mode_unsupported
  fail_if (is_windowed cfg && Int.le cfg.window_size (pos 0)) window_size_positive
  fail_if (is_on_shutdown cfg && cfg.reconciliation_config.enabled) reconciliation_on_shutdown
  fail_if (Int.le cfg.max_in_memory_spans (pos 0)) max_in_memory_spans_positive
  fail_if (not (known_policy cfg.late_span_policy)) late_span_policy_unsupported
  fail_if (not has_sink) sink_required

unfoldable pub of_new : Result NewError Reconciler → Result NewEngineError (Option Reconciler)
of_new (ok r) = ok (some r)
of_new (err e) = err (reconciler_failed e)

unfoldable pub of_error : Option EngineError → Result EngineError (Unit {0})
of_error none = ok tt
of_error (some e) = err e

module _ {Value : Type 0} (host : Host Value) where
  unfoldable pub reconciler_for :
      (String → StateFile) → EngineConfig → Result NewEngineError (Option Reconciler)
  unfolding of_new
  reconciler_for read cfg =
      if cfg.reconciliation_config.enabled
      then of_new (new_reconciler host.float read cfg.reconciliation_config)
      else ok none

  unfoldable pub first_window : EngineConfig → Time → WindowState Value
  unfolding align_window window_from is_on_shutdown
  first_window cfg now =
      let (start, end) = align_window now cfg.window_size in
      if is_on_shutdown cfg then window_from now now else window_from start end

  -- `NewEngine` at the moment `now`; `read` reads the state file.
  unfoldable pub new_engine :
      (String → StateFile) → Bool → Time → EngineConfig → Result NewEngineError (Engine Value)
  unfolding with_mode check_engine_config reconciler_for first_window
  new_engine read has_sink now given =
      let cfg = with_mode given in
      check_engine_config has_sink cfg >>= λ _. reconciler_for read cfg >>= λ reconciler.
      ok (record {
        cfg = cfg;
        current = first_window cfg now;
        previous = none;
        previous_raw = none;
        previous_stable = none;
        reconciler = reconciler;
        latest_report = none;
        closed = false;
        close_err = none;
        terminal_err = none;
      })

  unfoldable pub ingest_batch : List (Span Value) → SourceSummary → Call Value Unit
  unfolding ingest_shutdown_batch of_error
  ingest_batch spans source s =
      let (error, e) = ingest_shutdown_batch s.engine spans source in
      (of_error error, record s { engine = e })

  unfoldable pub collected : List (Span Value) → Time → SourceSummary → Engine Value → Engine Value
  unfolding ingest_window
  collected spans received_at source e = record e {
    current = ingest_window e.cfg e.current spans received_at source;
  }

  -- What follows the flush of the due windows.
  unfoldable pub collect_after :
      List (Span Value) → Time → SourceSummary → Outcome Value Unit → Outcome Value Unit
  unfolding collected
  collect_after spans received_at source flushed =
      continue flushed λ _. modify (collected spans received_at source)

  unfoldable pub ingest_at :
      List (Span Value) → SourceSummary → Time → Session Value → Option (Outcome Value Unit)
  unfolding collect_after
  ingest_at spans source received_at s =
      Option.map (collect_after spans received_at source) (flush_due host received_at s)

  unfoldable pub ingest_received :
      List (Span Value) → SourceSummary → Outcome Value Time → Option (Outcome Value Unit)
  unfolding ingest_at
  ingest_received spans source (ok received_at, s) = ingest_at spans source received_at s
  ingest_received spans source (err e, s) = some (err e, s)

  -- `IngestWithSource`; without a result where the loop of the flush ends its fuel.
  unfoldable pub ingest_with_source :
      List (Span Value) → Time → SourceSummary → Session Value → Option (Outcome Value Unit)
  unfolding is_on_shutdown ingest_received
  ingest_with_source spans received_at source s =
      let received = if is_zero received_at then clock host s else return received_at s in
      if is_on_shutdown s.engine.cfg
      then some (ingest_batch spans source s)
      else ingest_received spans source received

  -- `FlushDue`
  unfoldable pub flush_due_now : Session Value → Option (Outcome Value Unit)
  unfolding is_on_shutdown
  flush_due_now s =
      let now = host.now s.reads in
      if is_on_shutdown s.engine.cfg
      then some (return tt s)
      else flush_due host now (clock host s).1

  -- The end of `Close`: the error is kept for the next call.
  unfoldable pub keep_close_err : Outcome Value Unit → Outcome Value Unit
  keep_close_err (ok u, s) = (ok tt, record s { engine = record s.engine { close_err = none } })
  keep_close_err (err e, s) = (err e, record s { engine = record s.engine { close_err = some e } })

  unfoldable pub end_at : Time → Engine Value → Engine Value
  end_at end e = record e { current = record e.current { end = end } }

  -- `Close` of a batch that is open, marked as closed already.
  unfoldable pub close_batch : Option EngineError → Call Value Unit
  unfolding end_at
  close_batch (some ended) = fail ended
  close_batch none = clock host then λ end s.
      if before end s.engine.current.start
      then (err close_precedes_start, s)
      else (modify (end_at end) then λ _. flush_current host true) s

  unfoldable pub close : Call Value Unit
  unfolding is_on_shutdown of_error keep_close_err
  close s =
      let marked : Session Value = record s { engine = record s.engine { closed = true } } in
      if not (is_on_shutdown s.engine.cfg)
      then (clock host then λ _. flush_current host true) s
      else if s.engine.closed
      then (of_error s.engine.close_err, s)
      else keep_close_err (close_batch s.engine.terminal_err marked)

  if_numbered : Option Report → Option Report
  if_numbered none = none
  if_numbered (some r) = if Int.equal r.format_version (pos 0) then none else some r

  unfoldable pub latest_reconciliation_report : Engine Value → Option Report
  unfolding if_numbered
  latest_reconciliation_report e = if_numbered e.latest_report
