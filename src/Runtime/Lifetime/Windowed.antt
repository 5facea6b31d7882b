-- ===== src/Runtime/Lifetime/Windowed.antt =====
-- engine.go: an engine that publishes window by window, through its calls.
use bering.Prelude.{
  ℕ, ◌+◌, ◌*◌, ◌≤◌, ◌≡◌, sym, ap, ◌∙◌, subst, true, false, Option, none, some, List, length, Result,
  ok, err, arith, Bool-cases, inl, inr,
}
use mathlib.Core.Option
use bering.Go.Int.{pos, pos_part}
use bering.Go.Time.{Time, is_zero}
use bering.Snapshot.Types.{SourceSummary}
use bering.Runtime.Types.{Span, WindowState, EngineConfig, EngineError}
use bering.Runtime.Admission.Buffer.{ingest_window-Holds}
use bering.Runtime.Session.{◌then◌, Host, Session, Outcome, continue, return, modify, clock}
use bering.Runtime.Flush.{
  add_duration, next_window, new_window, window_from, flush_current, flush_due,
}
use bering.Runtime.Flush.Chain.{IsChained, IsFlush-IsChained, flush_current-IsFlush_forced}
use bering.Runtime.Flush.Due.{add_duration-pos, IsLater, IsAdvanced, flush_due-Returns}
use bering.Runtime.Lifetime.{
  is_on_shutdown, collected, collect_after, ingest_at, ingest_received, ingest_with_source,
  flush_due_now, close,
}

module _ {Value : Type 0} where
  -- The window has the configured size and starts at a multiple of it, and its buffer is within the
  -- limit.
  pub record IsAligned (cfg : EngineConfig) (w : WindowState Value) : Type 0 where
    pub size : ℕ
    pub sized : cfg.window_size ≡ pos size
    pub positive : 1 ≤ size
    pub multiple : ℕ
    pub start : w.start ≡ multiple * size
    pub end : w.end ≡ w.start + size
    pub within : length w.spans ≤ pos_part cfg.max_in_memory_spans

  module _ (host : Host Value) where
    pub record IsWindowed (s : Session Value) : Type 0 where
      pub mode : is_on_shutdown s.engine.cfg ≡ false
      pub aligned : IsAligned s.engine.cfg s.engine.current
      pub chained : IsChained host s

    next-IsAligned :
        (cfg : EngineConfig) (size : ℕ) (now : Time) (w w' : WindowState Value)
        → cfg.window_size ≡ pos size
        → 1 ≤ size
        → (multiple : ℕ) → w.start ≡ multiple * size
        → w.end ≡ w.start + size
        → IsLater size now w w'
        → IsAligned cfg w'
    next-IsAligned cfg size now w w' sized positive multiple start end h = record {
      size = size;
      sized = sized;
      positive = positive;
      multiple = multiple + 1 + h.steps;
      start = ground (arith, h.start, start, end);
      end = h.end;
      within = ground (arith, ap (λ l. length l) h.spans);
    }

    later-IsAligned :
        (cfg : EngineConfig) (size : ℕ) (now : Time) (w w' : WindowState Value)
        → cfg.window_size ≡ pos size
        → IsAligned cfg w
        → IsLater size now w w'
        → IsAligned cfg w'
    later-IsAligned cfg size now w w' sized h later =
        let same : h.size ≡ size = ap pos_part (sym h.sized ∙ sized) in
        next-IsAligned cfg size now w w' sized (subst (λ n. 1 ≤ n) same h.positive) h.multiple
          (subst (λ n. w.start ≡ h.multiple * n) same h.start)
          (subst (λ n. w.end ≡ w.start + n) same h.end) later

    IsAdvanced-IsWindowed :
        (size : ℕ) (now : Time) (s s' : Session Value)
        → s.engine.cfg.window_size ≡ pos size
        → IsAdvanced host size now s s'
        → IsWindowed s
        → IsWindowed s'
    IsAdvanced-IsWindowed size now s s' sized a h = record {
      mode = ap is_on_shutdown a.cfg ∙ h.mode;
      aligned =
          subst (λ cfg. IsAligned cfg s'.engine.current) (sym a.cfg)
            (elim (a.window) [
              | inl same ↦ subst (λ w. IsAligned s.engine.cfg w) (sym same) h.aligned
              | inr later ↦
                  later-IsAligned s.engine.cfg size now s.engine.current s'.engine.current sized
                    h.aligned later
            ]);
      chained = a.chained h.chained;
    }

    -- A call returned, and the engine is as before.
    pub record Keeps (result : Option (Outcome Value Unit)) : Type 0 where
      pub outcome : Outcome Value Unit
      pub returned : result ≡ some outcome
      pub windowed : IsWindowed outcome.1

    abbrev IsKept : Option (Outcome Value Unit) → Type 0
    IsKept none = Unit
    IsKept (some outcome) = IsWindowed outcome.1

    pub Keeps-IsWindowed :
        {result : Option (Outcome Value Unit)} {r : Result EngineError Unit} {s : Session Value}
        → Keeps result
        → result ≡ some (r, s)
        → IsWindowed s
    Keeps-IsWindowed h returned = subst IsKept (sym h.returned ∙ returned) h.windowed

    collected-IsWindowed :
        (spans : List (Span Value)) (received_at : Time) (source : SourceSummary)
        (flushed : Outcome Value Unit)
        → IsWindowed flushed.1
        → IsWindowed (collect_after host spans received_at source flushed).1
    unfolding collect_after collected continue modify
    collected-IsWindowed spans received_at source (err e, s) h = h
    collected-IsWindowed spans received_at source (ok u, s) h =
        let held = ingest_window-Holds s.engine.cfg s.engine.current spans received_at source in
        record {
          mode = h.mode;
          aligned = record {
            size = h.aligned.size;
            sized = h.aligned.sized;
            positive = h.aligned.positive;
            multiple = h.aligned.multiple;
            start = held.start ∙ h.aligned.start;
            end = held.end ∙ h.aligned.end ∙ ap (λ t. t + h.aligned.size) (sym held.start);
            within = held.within h.aligned.within;
          };
          chained = record { previous = h.chained.previous; compared = h.chained.compared };
        }

    flush_due-Keeps : (now : Time) (s : Session Value) → IsWindowed s → Keeps (flush_due host now s)
    flush_due-Keeps now s h =
        let r = flush_due-Returns host h.aligned.size now s h.aligned.sized h.aligned.positive in
        record {
          outcome = r.outcome;
          returned = r.returned;
          windowed =
              IsAdvanced-IsWindowed h.aligned.size now s r.outcome.1 h.aligned.sized r.advanced h;
        }

    ingest_at-Keeps :
        (spans : List (Span Value)) (source : SourceSummary) (received_at : Time)
        (s : Session Value)
        → IsWindowed s
        → Keeps (ingest_at host spans source received_at s)
    unfolding ingest_at
    ingest_at-Keeps spans source received_at s h =
        let r = flush_due-Keeps received_at s h in
        record {
          outcome = collect_after host spans received_at source r.outcome;
          returned = ap (Option.map (collect_after host spans received_at source)) r.returned;
          windowed = collected-IsWindowed spans received_at source r.outcome r.windowed;
        }

    -- Reading the clock changes neither the engine nor what was written.
    clock-IsWindowed : (s : Session Value) → IsWindowed s → IsWindowed (clock host s).1
    unfolding clock
    clock-IsWindowed s h = record {
      mode = h.mode;
      aligned = h.aligned;
      chained = record { previous = h.chained.previous; compared = h.chained.compared };
    }

    pub ingest_with_source-Keeps :
        (spans : List (Span Value)) (received_at : Time) (source : SourceSummary)
        (s : Session Value)
        → IsWindowed s
        → Keeps (ingest_with_source host spans received_at source s)
    unfolding ingest_with_source ingest_received clock return
    ingest_with_source-Keeps spans received_at source s h =
        elim (Bool-cases (is_zero received_at)) [
          | inl unset ↦
              rw (h.mode, unset)
                (ingest_at-Keeps spans source (host.now s.reads) (clock host s).1
                  (clock-IsWindowed s h))
          | inr set ↦ rw (h.mode, set) (ingest_at-Keeps spans source received_at s h)
        ]

    pub flush_due_now-Keeps : (s : Session Value) → IsWindowed s → Keeps (flush_due_now host s)
    unfolding flush_due_now
    flush_due_now-Keeps s h =
        rw (h.mode) (flush_due-Keeps (host.now s.reads) (clock host s).1 (clock-IsWindowed s h))

    forced-IsWindowed :
        (s : Session Value) → IsWindowed s → IsWindowed (flush_current host true s).1
    unfolding next_window new_window window_from
    forced-IsWindowed s h =
        let s' = (flush_current host true s).1 in
        let (f, window) = flush_current-IsFlush_forced host s in
        record {
          mode = ap is_on_shutdown f.cfg ∙ h.mode;
          aligned =
              subst (λ cfg. IsAligned cfg s'.engine.current) (sym f.cfg)
                (elim window [
                  | inl same ↦ subst (λ w. IsAligned s.engine.cfg w) (sym same) h.aligned
                  | inr moved ↦
                      subst (λ w. IsAligned s.engine.cfg w) (sym moved)
                        (record {
                          size = h.aligned.size;
                          sized = h.aligned.sized;
                          positive = h.aligned.positive;
                          multiple = h.aligned.multiple + 1;
                          start = ground (arith, h.aligned.start, h.aligned.end);
                          end =
                              ap (λ d. add_duration s.engine.current.end d) h.aligned.sized
                              ∙ add_duration-pos s.engine.current.end h.aligned.size;
                          within = omega arith;
                        })
                ]);
          chained = IsFlush-IsChained host s s' f h.chained;
        }

    pub close-IsWindowed : (s : Session Value) → IsWindowed s → IsWindowed (close host s).1
    unfolding close ◌then◌ continue clock
    close-IsWindowed s h = rw (h.mode) (forced-IsWindowed (clock host s).1 (clock-IsWindowed s h))
