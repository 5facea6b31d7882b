-- ===== src/Runtime/Shutdown/Atomic.antt =====
-- engine.go: what `ingestShutdownBatch` does to the batch.
use bering.Prelude.{
  ◌≤◌, ◌≡◌, refl, ap, sym, ◌∙◌, Bool, true, false, Option, none, some, List, [], ◌∷◌, ◌++◌, map,
  length, length-append, length-map, append_assoc, append-nil, arith, Bool-cases, if◌then◌else◌,
  inl, inr, ◌⊎◌,
}
use bering.Go.Int
use bering.Go.Int.{ℤ, pos, pos_part, neg_part, max_int, sub-pos}
use bering.Snapshot.Types.{SourceSummary}
use bering.Runtime.Types.{Span, WindowState, EngineError, batch_closed, Engine}
use bering.Runtime.Window.{
  default_source_summary, merge_window_source_summary, with_source_ref, append_span,
}
use bering.Runtime.Shutdown.{collect, take_request, unless_ended, ingest_shutdown_batch}

module _ {Value : Type 0} where
  -- The bound is positive, as `NewEngine` demands, and the batch is within it.
  pub record IsWithin (e : Engine Value) : Type 0 where
    pub positive : e.cfg.max_in_memory_spans ≡ pos (pos_part e.cfg.max_in_memory_spans)
    pub is_int : pos_part e.cfg.max_in_memory_spans ≤ max_int
    pub spans : length e.current.spans ≤ pos_part e.cfg.max_in_memory_spans

  -- A request that was taken: all its spans follow the others, in their order.
  pub record IsTaken (e e' : Engine Value) (spans : List (Span Value)) (source : SourceSummary)
      : Type 0 where
    pub was_open : (e.closed ≡ false) × (e.terminal_err ≡ none)
    pub kept :
        e'.current.spans
        ≡ e.current.spans
          ++ map (with_source_ref (default_source_summary source e.cfg.sources)) spans
    pub is_open : (e'.closed ≡ false) × (e'.terminal_err ≡ none)

  -- A request that was refused: the batch is the same, and it is closed or ended by this error.
  pub record IsRefused (e e' : Engine Value) (why : EngineError) : Type 0 where
    pub unchanged : (e'.current ≡ e.current) × (e'.closed ≡ e.closed)
    pub ended : (e.closed ≡ true) ⊎ (e'.terminal_err ≡ some why)

  abbrev pub IsAtomic :
      Engine Value → List (Span Value) → SourceSummary → Option EngineError × Engine Value → Type 0
  IsAtomic e spans source (none, e') = IsTaken e e' spans source
  IsAtomic e spans source (some why, e') = IsRefused e e' why

  spans-collect :
      (source : SourceSummary) (w : WindowState Value) (spans : List (Span Value))
      → (collect source w spans).spans ≡ w.spans ++ map (with_source_ref source) spans
  unfolding collect append_span
  spans-collect source w [] = sym (append-nil w.spans)
  spans-collect source w (span ∷ rest) =
      spans-collect source (append_span w (with_source_ref source span)) rest
      ∙ append_assoc w.spans (with_source_ref source span ∷ []) (map (with_source_ref source) rest)

  spans-merge :
      (w : WindowState Value) (source : SourceSummary) (z : ℤ)
      → (merge_window_source_summary w source z).spans ≡ w.spans
  unfolding merge_window_source_summary
  spans-merge w source z = elim (Bool-cases (Int.le z (pos 0))) [
    | inl idle ↦ rw idle refl
    | inr busy ↦ rw busy refl
  ]

  take_request-IsAtomic :
      (e : Engine Value) (spans : List (Span Value)) (source : SourceSummary)
      → IsWithin e
      → e.closed ≡ false
      → e.terminal_err ≡ none
      → IsAtomic e spans source (take_request e spans source)
        × IsWithin (take_request e spans source).1
  unfolding take_request
  take_request-IsAtomic e spans source h opened fresh =
      let source' = default_source_summary source e.cfg.sources in
      let merged = merge_window_source_summary e.current source' (pos (length spans)) in
      let kept =
        spans-collect source' merged spans
        ∙ ap (λ s. s ++ map (with_source_ref source') spans)
            (spans-merge e.current source' (pos (length spans))) in
      let left =
        ap (λ z. Int.sub z (pos (length e.current.spans))) h.positive
        ∙ sub-pos (pos_part e.cfg.max_in_memory_spans) (length e.current.spans) h.spans h.is_int in
      let longer =
        ap (λ s. length s) kept
        ∙ length-append e.current.spans (map (with_source_ref source') spans) in
      elim (Bool-cases (
        Int.lt (Int.sub e.cfg.max_in_memory_spans (pos (length e.current.spans)))
          (pos (length spans)))) [
            | inl full ↦ rw full (
              record { unchanged = (refl, refl); ended = inr refl },
              record { positive = h.positive; is_int = h.is_int; spans = h.spans },
            )
            | inr free ↦ rw free (
              record { was_open = (opened, fresh); kept = kept; is_open = (opened, fresh) },
              record {
                positive = h.positive;
                is_int = h.is_int;
                spans = ground (
                  arith,
                  free,
                  ap pos_part left,
                  ap neg_part left,
                  longer,
                  length-map (with_source_ref source') spans,
                  h.spans,
                );
              },
            )
          ]

  -- The guards of a request, one claim for each way through them.
  pub guarded :
      (Q : Option EngineError × Engine Value → Type 0) (closed : Bool) (ended : Option EngineError)
      (e : Engine Value) (result : Option EngineError × Engine Value)
      → (closed ≡ true → Q (some batch_closed, e))
      → ((why : EngineError) → closed ≡ false → ended ≡ some why → Q (some why, e))
      → (closed ≡ false → ended ≡ none → Q result)
      → Q (if closed then (some batch_closed, e) else unless_ended ended e result)
  unfolding unless_ended
  guarded Q true ended e result over failed fresh = over refl
  guarded Q false none e result over failed fresh = fresh refl refl
  guarded Q false (some why) e result over failed fresh = failed why refl refl

  -- A request to a batch is taken as a whole, its spans after the others in their order, and then
  -- the batch was open and is; or it is refused, the spans stay what they were, and the batch is
  -- closed or ended by the error. The batch never grows beyond its bound, if that is positive and
  -- the batch was within it.
  pub ingest_shutdown_batch-IsAtomic :
      (e : Engine Value) (spans : List (Span Value)) (source : SourceSummary)
      → IsWithin e
      → IsAtomic e spans source (ingest_shutdown_batch e spans source)
        × IsWithin (ingest_shutdown_batch e spans source).1
  unfolding ingest_shutdown_batch
  ingest_shutdown_batch-IsAtomic e spans source h =
      guarded (λ after. IsAtomic e spans source after × IsWithin after.1) e.closed e.terminal_err e
        (take_request e spans source)
        (λ over. (record { unchanged = (refl, refl); ended = inl over }, h))
        (λ why opened ended. (record { unchanged = (refl, refl); ended = inr ended }, h))
        (λ opened fresh. take_request-IsAtomic e spans source h opened fresh)
