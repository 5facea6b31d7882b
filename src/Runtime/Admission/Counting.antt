-- ===== src/Runtime/Admission/Counting.antt =====
-- engine.go: the spans that a window keeps and drops, and the bound of its buffer.
use bering.Prelude.{
  ℕ, suc, ◌+◌, ◌≤◌, ◌≡◌, refl, ap, sym, ◌∙◌, List, [], ◌∷◌, length, length-append, arith,
  Bool-cases, inl, inr,
}
use bering.Go.Int
use bering.Go.Int.{ℤ, pos, pos_part, max_int}
use bering.Go.Time.{Time, before}
use bering.Snapshot.Types.{SourceSummary}
use bering.Runtime.Types.{Span, WindowState, EngineConfig}
use bering.Runtime.Window.{
  default_source_summary, merge_window_source_summary, with_source_ref, append_span,
}
use bering.Runtime.Admission.{
  keep_span, admit_span, admit_spans, ingest_window, drop_span, count_late, drops_late,
  admission_time,
}

add_one : (d : ℕ) → d + 1 ≤ max_int → Int.add (pos d) (pos 1) ≡ pos (d + 1)
unfolding Int.add
add_one d h = ground arith

-- A window whose buffer is within the bound, and that can count `n` more drops.
pub record HasRoom {Value : Type 0} (cfg : EngineConfig) (n : ℕ) (w : WindowState Value)
    : Type 0 where
  pub within : length w.spans ≤ pos_part cfg.max_in_memory_spans
  pub counts : w.dropped ≡ pos (pos_part w.dropped)
  pub fits : pos_part w.dropped + n ≤ max_int

-- The window took `n` spans: each was kept or counted as dropped, and its bounds are the same.
pub record Took {Value : Type 0} (n : ℕ) (w w' : WindowState Value) : Type 0 where
  pub start : w'.start ≡ w.start
  pub end : w'.end ≡ w.end
  pub total : length w'.spans + pos_part w'.dropped ≡ length w.spans + pos_part w.dropped + n

module _ {Value : Type 0} (cfg : EngineConfig) where
  -- One step of the loop.
  abbrev Admits : ℕ → WindowState Value → WindowState Value → Type 0
  Admits n w w' = HasRoom cfg n w' × Took 1 w w'

  drop-Admits : (n : ℕ) (w : WindowState Value) → HasRoom cfg (suc n) w → Admits n w (drop_span w)
  unfolding drop_span
  drop-Admits n w h =
      let one =
        ap (λ z. Int.add z (pos 1)) h.counts
        ∙ add_one (pos_part w.dropped) (omega (arith, h.fits)) in
      let count = ap pos_part one in
      (
        record {
          within = h.within;
          counts = one ∙ ap (λ z. pos (pos_part z)) (sym one);
          fits = omega (arith, h.fits, count);
        },
        record { start = refl; end = refl; total = omega (arith, count) },
      )

  keep-Admits :
      (n : ℕ) (w : WindowState Value) (span : Span Value)
      → HasRoom cfg (suc n) w
      → Admits n w (keep_span cfg w span)
  unfolding keep_span append_span
  keep-Admits n w span h =
      elim (Bool-cases (Int.le cfg.max_in_memory_spans (pos (length w.spans)))) [
        | inl full ↦ rw full (drop-Admits n w h)
        | inr free ↦ rw free (
            let longer = length-append w.spans (span ∷ []) in
            (
              record {
                within = ground (arith, h.within, free, longer);
                counts = h.counts;
                fits = omega (arith, h.fits);
              },
              record { start = refl; end = refl; total = omega (arith, longer) },
            ))
      ]

  -- A span that is late is counted as such, which neither step looks at.
  late-Admits :
      (n : ℕ) (w : WindowState Value) (step : WindowState Value → WindowState Value)
      → ((v : WindowState Value) → HasRoom cfg (suc n) v → Admits n v (step v))
      → HasRoom cfg (suc n) w
      → Admits n w (step (count_late w))
  unfolding count_late
  late-Admits n w step next h =
      let (room, took) =
        next (count_late w) (record { within = h.within; counts = h.counts; fits = h.fits }) in
      (room, record { start = took.start; end = took.end; total = took.total })

  admit-Admits :
      (n : ℕ) (received_at : Time) (w : WindowState Value) (span : Span Value)
      → HasRoom cfg (suc n) w
      → Admits n w (admit_span cfg received_at w span)
  unfolding admit_span count_late
  admit-Admits n received_at w span h =
      elim (Bool-cases (before (admission_time span received_at) w.start)) [
        | inl late ↦ elim (Bool-cases (drops_late cfg)) [
          | inl policy ↦ rw (late, policy) (late-Admits n w drop_span (drop-Admits n) h)
          | inr policy ↦
              rw (late, policy)
                (late-Admits n w (λ v. keep_span cfg v span) (λ v. keep-Admits n v span) h)
        ]
        | inr prompt ↦ rw prompt (keep-Admits n w span h)
      ]

  admit_spans-Took :
      (received_at : Time) (source : SourceSummary) (w : WindowState Value)
      (spans : List (Span Value))
      → HasRoom cfg (length spans) w
      → HasRoom cfg 0 (admit_spans cfg received_at source w spans)
        × Took (length spans) w (admit_spans cfg received_at source w spans)
  unfolding admit_spans
  admit_spans-Took received_at source w [] h =
      (h, record { start = refl; end = refl; total = omega arith })
  admit_spans-Took received_at source w (span ∷ rest) h =
      let step = admit_span cfg received_at w (with_source_ref source span) in
      let (room, took) = admit-Admits (length rest) received_at w (with_source_ref source span) h in
      let (room', took') = admit_spans-Took received_at source step rest room in
      (
        room',
        record {
          start = took'.start ∙ took.start;
          end = took'.end ∙ took.end;
          total = omega (arith, took.total, took'.total);
        },
      )

  merge-Took :
      (w : WindowState Value) (source : SourceSummary) (n : ℕ) (z : ℤ)
      → HasRoom cfg n w
      → HasRoom cfg n (merge_window_source_summary w source z)
        × Took 0 w (merge_window_source_summary w source z)
  unfolding merge_window_source_summary
  merge-Took w source n z h = elim (Bool-cases (Int.le z (pos 0))) [
    | inl idle ↦ rw idle (h, record { start = refl; end = refl; total = omega arith })
    | inr busy ↦ rw busy (
      record { within = h.within; counts = h.counts; fits = h.fits },
      record { start = refl; end = refl; total = omega arith },
    )
  ]

  -- Ingesting spans keeps the buffer of the window within its bound, and the spans that it keeps and
  -- those that it counts as dropped grow together by exactly the number of the spans that came, if
  -- the buffer was within the bound and the count of drops does not overflow.
  pub ingest_window-Took :
      (w : WindowState Value) (spans : List (Span Value)) (received_at : Time)
      (source : SourceSummary)
      → HasRoom cfg (length spans) w
      → HasRoom cfg 0 (ingest_window cfg w spans received_at source)
        × Took (length spans) w (ingest_window cfg w spans received_at source)
  unfolding ingest_window
  ingest_window-Took w spans received_at source h =
      let source' = default_source_summary source cfg.sources in
      let merged = merge_window_source_summary w source' (pos (length spans)) in
      let (room, took) = merge-Took w source' (length spans) (pos (length spans)) h in
      let (room', took') = admit_spans-Took received_at source' merged spans room in
      (
        room',
        record {
          start = took'.start ∙ took.start;
          end = took'.end ∙ took.end;
          total = omega (arith, took.total, took'.total);
        },
      )
