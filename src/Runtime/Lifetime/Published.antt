-- ===== src/Runtime/Lifetime/Published.antt =====
-- engine.go: what an engine for one batch until shutdown publishes.
use bering.Prelude.{
  String, ℕ, ◌≤◌, ◌≡◌, refl, sym, ap, ◌∙◌, subst, Bool, true, false, Option, none, some, List,
  length, Result, ok, err, arith, Bool-cases, inl, inr, >>=-eq-ok,
}
use bering.Go.Int
use bering.Go.Int.{pos}
use bering.Go.Time.{Time}
use bering.Snapshot.Types.{SourceSummary}
use bering.Reconciliation.State.{StateFile}
use bering.Runtime.Types.{Span, EngineConfig, EngineError, Engine}
use bering.Runtime.Shutdown.{ingest_shutdown_batch, take_request}
use bering.Runtime.Shutdown.Atomic.{guarded}
use bering.Runtime.Session.{Host, Session, Outcome, return}
use bering.Runtime.Session.Quiet.{publications}
use bering.Runtime.Lifetime.{
  NewEngineError, with_mode, is_on_shutdown, check_engine_config, reconciler_for, new_engine,
  ingest_batch, flush_due_now, close, close_batch,
}
use bering.Runtime.Lifetime.Batch.{ingest_lem}
use bering.Runtime.Lifetime.Closing.{
  close_open, close_closed, keep_close_err-IsFinal, close_batch-IsFinal, marked,
}
use bering.Runtime.Lifetime.Reach.{
  Step, ingested, flushed, closed, Reachable, created, called, opened, is_on_shutdown-with_mode,
}

module _ {Value : Type 0} (host : Host Value) where
  -- Nothing was published before the batch is closed, and one envelope at most after.
  pub record IsBatch (s : Session Value) : Type 0 where
    pub mode : is_on_shutdown s.engine.cfg ≡ true
    pub bound : length (publications s.log) ≤ 1
    pub unpublished : s.engine.closed ≡ false → length (publications s.log) ≡ 0

  -- What a request does not change.
  abbrev KeepsLife : Engine Value → Option EngineError × Engine Value → Type 0
  KeepsLife e result = (result.1.cfg ≡ e.cfg) × (result.1.closed ≡ e.closed)

  ingest_shutdown_batch-KeepsLife :
      (e : Engine Value) (spans : List (Span Value)) (source : SourceSummary)
      → KeepsLife e (ingest_shutdown_batch e spans source)
  unfolding ingest_shutdown_batch take_request
  ingest_shutdown_batch-KeepsLife e spans source =
      guarded (KeepsLife e) e.closed e.terminal_err e (take_request e spans source)
        (λ over. (refl, refl)) (λ why open_still stopped. (refl, refl))
        λ open_still fresh.
          elim (Bool-cases (
            Int.lt (Int.sub e.cfg.max_in_memory_spans (pos (length e.current.spans)))
              (pos (length spans)))) [
                | inl full ↦ rw full (refl, refl)
                | inr free ↦ rw free (refl, refl)
              ]

  ingest_batch-IsBatch :
      (spans : List (Span Value)) (source : SourceSummary) (s : Session Value)
      → IsBatch s
      → IsBatch (ingest_batch host spans source s).1
  unfolding ingest_batch
  ingest_batch-IsBatch spans source s h =
      let (cfg, same) = ingest_shutdown_batch-KeepsLife s.engine spans source in
      record {
        mode = ap is_on_shutdown cfg ∙ h.mode;
        bound = h.bound;
        unpublished = λ still. h.unpublished (sym same ∙ still);
      }

  close-IsBatch : (s : Session Value) → IsBatch s → IsBatch (close host s).1
  close-IsBatch s h = elim (Bool-cases s.engine.closed) [
    | inl over ↦ rw (close_closed host s h.mode over) h
    | inr still ↦
        let call = close_batch host s.engine.terminal_err (marked host s) in
        let f =
          keep_close_err-IsFinal host (marked host s) call
            (close_batch-IsFinal host s.engine.terminal_err (marked host s)) in
        rw (close_open host s h.mode still) (record {
          mode = ap is_on_shutdown f.cfg ∙ h.mode;
          bound = omega (arith, f.published, h.unpublished still);
          unpublished = λ again. ground (arith, f.closed, again);
        })
  ]

  module _ (given : EngineConfig) (mode : is_on_shutdown given ≡ true) where
    abbrev IsNewBatch : ℕ → Result NewEngineError (Engine Value) → Type 0
    IsNewBatch reads (ok e) = IsBatch (opened host e reads)
    IsNewBatch reads (err e) = Unit

    new_engine-IsBatch :
        (read : String → StateFile) (has_sink : Bool) (now : Time) (reads : ℕ) (e : Engine Value)
        → new_engine host read has_sink now given ≡ ok e
        → IsBatch (opened host e reads)
    unfolding new_engine
    new_engine-IsBatch read has_sink now reads e made =
        let cfg = with_mode given in
        let (u, checked, rest) = >>=-eq-ok (check_engine_config has_sink cfg) _ made in
        let (r, built, done) = >>=-eq-ok (reconciler_for host read cfg) _ rest in
        subst (IsNewBatch reads) done (record {
          mode = is_on_shutdown-with_mode given ∙ mode;
          bound = omega arith;
          unpublished = λ still. refl;
        })

    -- What a call returned, as a claim on the session after it.
    abbrev After : Option (Outcome Value Unit) → Type 0
    After none = Unit
    After (some outcome) = IsBatch outcome.1

    flush_due_now-After : (s : Session Value) → IsBatch s → After (flush_due_now host s)
    unfolding flush_due_now return
    flush_due_now-After s h = rw (h.mode) h

    Step-IsBatch : {s s' : Session Value} → IsBatch s → Step host s s' → IsBatch s'
    Step-IsBatch {s} h (ingested spans received_at source returned) =
        subst After (sym (ingest_lem host spans received_at source s h.mode) ∙ returned)
          (ingest_batch-IsBatch spans source s h)
    Step-IsBatch {s} h (flushed returned) = subst After returned (flush_due_now-After s h)
    Step-IsBatch {s} h closed = close-IsBatch s h

    -- Whatever calls are made of a new engine for one batch until shutdown, and whatever they return:
    -- it publishes nothing before it is closed, and one envelope at most in all.
    pub Reachable-IsBatch : {s : Session Value} → Reachable host given s → IsBatch s
    Reachable-IsBatch (created read has_sink now reads e made) =
        new_engine-IsBatch read has_sink now reads e made
    Reachable-IsBatch (called reached step) = Step-IsBatch (Reachable-IsBatch reached) step
