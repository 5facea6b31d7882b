-- ===== src/Runtime/Lifetime/Batch.antt =====
-- engine.go: a batch until shutdown, as a machine of three states, and the engine that carries it out.
use bering.Prelude.{
  ◌≡◌, refl, ap, ◌∙◌, Bool, true, false, Option, none, some, List, length, Result, ok, err,
  Bool-cases, inl, inr,
}
use bering.Go.Int
use bering.Go.Int.{pos}
use bering.Go.Time.{Time}
use bering.Snapshot.Types.{SourceSummary}
use bering.Runtime.Types.{Span, EngineError, batch_closed, Engine}
use bering.Runtime.Shutdown.{ingest_shutdown_batch, take_request}
use bering.Runtime.Shutdown.Atomic.{guarded}
use bering.Runtime.Session.{Host, Session, Outcome, fail}
use bering.Runtime.Lifetime.Closing.{
  marked, close_batch-IsFinal, keep_close_err-IsFinal, close_open, close_closed, keep_close_err_lem,
}
use bering.Runtime.Lifetime.{
  is_on_shutdown, of_error, ingest_batch, keep_close_err, close_batch, close, ingest_with_source,
}

-- What a batch is: collecting spans, ended by an error, or closed with what `Close` returned.
pub data Batch : Type 0 where
  collecting : Batch
  ended : EngineError → Batch
  done : Option EngineError → Batch

pub data Event : Type 0 where
  request closing : Event

-- What a batch does at an event, and what it returns.
pub data BatchStep : Event → Batch → Result EngineError (Unit {0}) → Batch → Type 0 where
  accepts : BatchStep request collecting (ok tt) collecting
  overflows : {e : EngineError} → BatchStep request collecting (err e) (ended e)
  stays_ended : {e : EngineError} → BatchStep request (ended e) (err e) (ended e)
  refuses : {x : Option EngineError} → BatchStep request (done x) (err batch_closed) (done x)
  closes : BatchStep closing collecting (ok tt) (done none)
  close_fails : {e : EngineError} → BatchStep closing collecting (err e) (done (some e))
  close_ended : {e : EngineError} → BatchStep closing (ended e) (err e) (done (some e))
  close_again : {x : Option EngineError} → BatchStep closing (done x) (of_error x) (done x)

abbrev ended_by : Option EngineError → Batch
ended_by none = collecting
ended_by (some e) = ended e

-- The batch that an engine carries.
abbrev pub batch_at : Bool → Option EngineError → Option EngineError → Batch
batch_at true close_err terminal_err = done close_err
batch_at false close_err terminal_err = ended_by terminal_err

module _ {Value : Type 0} where
  abbrev pub batch_of : Engine Value → Batch
  batch_of e = batch_at e.closed e.close_err e.terminal_err

  -- The call did what the batch does at the event.
  abbrev pub Refines : Event → Engine Value → Outcome Value Unit → Type 0
  Refines event e outcome = BatchStep event (batch_of e) outcome.0 (batch_of outcome.1.engine)

  module _ (host : Host Value) where
    abbrev AsRequest : Session Value → Option EngineError × Engine Value → Type 0
    AsRequest s result =
        BatchStep request (batch_of s.engine) (of_error result.0) (batch_of result.1)

    take_request-AsRequest :
        (s : Session Value) (spans : List (Span Value)) (source : SourceSummary)
        → s.engine.closed ≡ false
        → s.engine.terminal_err ≡ none
        → AsRequest s (take_request s.engine spans source)
    unfolding take_request of_error
    take_request-AsRequest s spans source opened fresh =
        let e = s.engine in
        elim (Bool-cases (
          Int.lt (Int.sub e.cfg.max_in_memory_spans (pos (length e.current.spans)))
            (pos (length spans)))) [
              | inl full ↦ rw (full, opened, fresh) overflows
              | inr free ↦ rw (free, opened, fresh) accepts
            ]

    -- A request to the engine is a request to its batch, and publishes nothing.
    ingest_batch-Refines :
        (spans : List (Span Value)) (source : SourceSummary) (s : Session Value)
        → Refines request s.engine (ingest_batch host spans source s)
    unfolding ingest_batch ingest_shutdown_batch of_error
    ingest_batch-Refines spans source s =
        guarded (AsRequest s) s.engine.closed s.engine.terminal_err s.engine
          (take_request s.engine spans source) (λ over. rw over refuses)
          (λ why opened stopped. rw (opened, stopped) stays_ended)
          (take_request-AsRequest s spans source)

    -- What `Close` keeps of a batch that it ends.
    keep_close_err-Refines :
        (e : Engine Value) (outcome : Outcome Value Unit)
        → batch_of e ≡ collecting
        → outcome.1.engine.closed ≡ true
        → Refines closing e (keep_close_err host outcome)
    unfolding keep_close_err
    keep_close_err-Refines e (ok u, s) was over = rw (was, over) closes
    keep_close_err-Refines e (err why, s) was over = rw (was, over) close_fails

    collecting_lem :
        (e : Engine Value) → e.closed ≡ false → e.terminal_err ≡ none → batch_of e ≡ collecting
    collecting_lem e opened fresh = rw (opened, fresh) refl

    close_opened :
        (s : Session Value) (terminal : Option EngineError)
        → s.engine.closed ≡ false
        → s.engine.terminal_err ≡ terminal
        → Refines closing s.engine (keep_close_err host (close_batch host terminal (marked host s)))
    unfolding close_batch fail keep_close_err
    close_opened s (some e) opened stopped = rw (opened, stopped) close_ended
    close_opened s none opened fresh =
        keep_close_err-Refines s.engine (close_batch host none (marked host s))
          (collecting_lem s.engine opened fresh)
          (close_batch-IsFinal host none (marked host s)).closed

    -- `Close` of the engine is a closing of its batch.
    close-Refines :
        (s : Session Value)
        → is_on_shutdown s.engine.cfg ≡ true
        → Refines closing s.engine (close host s)
    close-Refines s mode = elim (Bool-cases s.engine.closed) [
      | inl over ↦ rw (close_closed host s mode over, over) close_again
      | inr opened ↦
          rw (close_open host s mode opened) (close_opened s s.engine.terminal_err opened refl)
    ]

    pub ingest_lem :
        (spans : List (Span Value)) (received_at : Time) (source : SourceSummary)
        (s : Session Value)
        → is_on_shutdown s.engine.cfg ≡ true
        → ingest_with_source host spans received_at source s
          ≡ some (ingest_batch host spans source s)
    unfolding ingest_with_source
    ingest_lem spans received_at source s mode = rw mode refl

    -- The engine of a batch until shutdown carries out the machine of the three states: a request
    -- returns, and does to the batch and returns what the machine does at a request; `Close` does to it
    -- and returns what the machine does at a closing.
    pub batch-Refines :
        (spans : List (Span Value)) (received_at : Time) (source : SourceSummary)
        (s : Session Value)
        → is_on_shutdown s.engine.cfg ≡ true
        → ((outcome : Outcome Value Unit) × (ingest_with_source host spans received_at source s
              ≡ some outcome)
            × Refines request s.engine outcome)
          × Refines closing s.engine (close host s)
    batch-Refines spans received_at source s mode = (
      (
        ingest_batch host spans source s,
        ingest_lem spans received_at source s mode,
        ingest_batch-Refines spans source s,
      ),
      close-Refines s mode,
    )

    -- A second `Close` of a batch until shutdown returns what the first returned, and neither writes
    -- anything nor changes the engine.
    pub close_idempotent :
        (s : Session Value)
        → is_on_shutdown s.engine.cfg ≡ true
        → close host (close host s).1 ≡ close host s
    close_idempotent s mode = elim (Bool-cases s.engine.closed) [
      | inl over ↦ ap (λ o. close host o.1) (close_closed host s mode over)
      | inr opened ↦
          let closing_call = close_batch host s.engine.terminal_err (marked host s) in
          let after = keep_close_err host closing_call in
          let f =
            keep_close_err-IsFinal host (marked host s) closing_call
              (close_batch-IsFinal host s.engine.terminal_err (marked host s)) in
          rw (close_open host s mode opened) (
            close_closed host after.1 (ap is_on_shutdown f.cfg ∙ mode) f.closed
            ∙ keep_close_err_lem host closing_call)
    ]
