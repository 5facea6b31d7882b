-- ===== src/Runtime/Admission/Buffer.antt =====
-- engine.go: the bounds of a window that collects spans, and the bound of its buffer.
use bering.Prelude.{
  ◌≤◌, ◌≡◌, refl, ◌∙◌, List, [], ◌∷◌, length, length-append, arith, Bool-cases, inl, inr,
}
use bering.Go.Int
use bering.Go.Int.{ℤ, pos, pos_part}
use bering.Go.Time.{Time, before}
use bering.Snapshot.Types.{SourceSummary}
use bering.Runtime.Types.{Span, WindowState, EngineConfig}
use bering.Runtime.Window.{
  default_source_summary, merge_window_source_summary, with_source_ref, append_span,
}
use bering.Runtime.Admission.{
  keep_span, admit_span, admit_spans, ingest_window, drop_span, count_late, drops_late,
  admission_time,
}

module _ {Value : Type 0} (cfg : EngineConfig) where
  -- The window has the same bounds, and its buffer is within the limit if it was.
  pub record Holds (w w' : WindowState Value) : Type 0 where
    pub start : w'.start ≡ w.start
    pub end : w'.end ≡ w.end
    pub within :
        length w.spans ≤ pos_part cfg.max_in_memory_spans
        → length w'.spans ≤ pos_part cfg.max_in_memory_spans

  Holds-trans : {w w' w'' : WindowState Value} → Holds w w' → Holds w' w'' → Holds w w''
  Holds-trans h k = record {
    start = k.start ∙ h.start;
    end = k.end ∙ h.end;
    within = λ bound. k.within (h.within bound);
  }

  drop-Holds : (w : WindowState Value) → Holds w (drop_span w)
  unfolding drop_span
  drop-Holds w = record { start = refl; end = refl; within = λ bound. bound }

  late-Holds : (w : WindowState Value) → Holds w (count_late w)
  unfolding count_late
  late-Holds w = record { start = refl; end = refl; within = λ bound. bound }

  keep-Holds : (w : WindowState Value) (span : Span Value) → Holds w (keep_span cfg w span)
  unfolding keep_span append_span
  keep-Holds w span = elim (Bool-cases (Int.le cfg.max_in_memory_spans (pos (length w.spans)))) [
    | inl full ↦ rw full (drop-Holds w)
    | inr free ↦ rw free (record {
      start = refl;
      end = refl;
      within = λ bound. ground (arith, free, length-append w.spans (span ∷ []));
    })
  ]

  admit-Holds :
      (received_at : Time) (w : WindowState Value) (span : Span Value)
      → Holds w (admit_span cfg received_at w span)
  unfolding admit_span
  admit-Holds received_at w span =
      elim (Bool-cases (before (admission_time span received_at) w.start)) [
        | inl late ↦ elim (Bool-cases (drops_late cfg)) [
          | inl policy ↦ rw (late, policy) (Holds-trans (late-Holds w) (drop-Holds (count_late w)))
          | inr policy ↦
              rw (late, policy) (Holds-trans (late-Holds w) (keep-Holds (count_late w) span))
        ]
        | inr prompt ↦ rw prompt (keep-Holds w span)
      ]

  admit_spans-Holds :
      (received_at : Time) (source : SourceSummary) (w : WindowState Value)
      (spans : List (Span Value))
      → Holds w (admit_spans cfg received_at source w spans)
  unfolding admit_spans
  admit_spans-Holds received_at source w [] = record {
    start = refl;
    end = refl;
    within = λ bound. bound;
  }
  admit_spans-Holds received_at source w (span ∷ rest) =
      Holds-trans (admit-Holds received_at w (with_source_ref source span)) (
        admit_spans-Holds received_at source
          (admit_span cfg received_at w (with_source_ref source span)) rest)

  merge-Holds :
      (w : WindowState Value) (source : SourceSummary) (z : ℤ)
      → Holds w (merge_window_source_summary w source z)
  unfolding merge_window_source_summary
  merge-Holds w source z = elim (Bool-cases (Int.le z (pos 0))) [
    | inl idle ↦ rw idle (record { start = refl; end = refl; within = λ bound. bound })
    | inr busy ↦ rw busy (record { start = refl; end = refl; within = λ bound. bound })
  ]

  pub ingest_window-Holds :
      (w : WindowState Value) (spans : List (Span Value)) (received_at : Time)
      (source : SourceSummary)
      → Holds w (ingest_window cfg w spans received_at source)
  unfolding ingest_window
  ingest_window-Holds w spans received_at source =
      let source' = default_source_summary source cfg.sources in
      Holds-trans (merge-Holds w source' (pos (length spans))) (
        admit_spans-Holds received_at source'
          (merge_window_source_summary w source' (pos (length spans))) spans)
