-- ===== src/Runtime/Lifetime/Reach.antt =====
-- engine.go: the calls that a program makes of an engine, in any order, from `NewEngine` on.
use bering.Prelude.{
  ℕ, ◌+◌, ◌*◌, ◌/◌, ◌≤◌, ◌≡◌, refl, sym, ap, ◌∙◌, subst, Bool, false, some, List, [], length,
  Result, ok, err, arith, Bool-cases, inl, inr, String, >>=-eq-ok, ◌==◌, eq_iff,
}
use native.Mathlib.Nat.{mod-eq-sub-div-mul, div-add-mod'}
use bering.Go.Int
use bering.Go.Int.{ℤ, pos, negsuc}
use bering.Go.Time.{Time}
use bering.Snapshot.Types.{SourceSummary}
use bering.Reconciliation.State.{StateFile}
use bering.Runtime.Types.{Span, EngineConfig, EngineError, Engine}
use bering.Runtime.Session.{Host, Session}
use bering.Runtime.Flush.{align_window, truncate, add_duration, window_from}
use bering.Runtime.Flush.Due.{add_duration-pos}
use bering.Runtime.Lifetime.{
  NewEngineError, with_mode, is_on_shutdown, check_engine_config, reconciler_for, first_window,
  new_engine, ingest_with_source, flush_due_now, close,
}
use bering.Runtime.Lifetime.Windowed.{
  IsAligned, IsWindowed, Keeps, Keeps-IsWindowed, ingest_with_source-Keeps, flush_due_now-Keeps,
  close-IsWindowed,
}

truncate_lem : (now : Time) (size : ℕ) → 1 ≤ size → truncate now (pos size) ≡ now / size * size
unfolding truncate
truncate_lem now size positive = ground (arith, mod-eq-sub-div-mul now size, div-add-mod' now size)

positive_lem : (z : ℤ) → Int.le z (pos 0) ≡ false → (n : ℕ) × (z ≡ pos n) × (1 ≤ n)
positive_lem (pos n) h = (n, refl, ground (arith, h))
positive_lem (negsuc n) h = absurd (ground (arith, h))

check_engine_config_lem :
    (has_sink : Bool) (cfg : EngineConfig)
    → check_engine_config has_sink cfg ≡ ok tt
    → is_on_shutdown cfg ≡ false
    → Int.le cfg.window_size (pos 0) ≡ false
unfolding check_engine_config
check_engine_config_lem has_sink cfg passed mode = ground (arith, passed, mode)

pub is_on_shutdown-with_mode :
    (cfg : EngineConfig) → is_on_shutdown (with_mode cfg) ≡ is_on_shutdown cfg
unfolding is_on_shutdown with_mode
is_on_shutdown-with_mode cfg = elim (Bool-cases (cfg.publication_mode == "")) [
  | inl unset ↦ rw (unset, (eq_iff cfg.publication_mode "").0 unset) refl
  | inr set ↦ rw set refl
]

module _ {Value : Type 0} (host : Host Value) where
  -- One call, whatever it returns.
  pub data Step (s : Session Value) : Session Value → Type 0 where
    ingested :
        (spans : List (Span Value)) (received_at : Time) (source : SourceSummary)
        {r : Result EngineError Unit} {s' : Session Value}
        → ingest_with_source host spans received_at source s ≡ some (r, s')
        → Step s s'
    flushed :
        {r : Result EngineError Unit} {s' : Session Value}
        → flush_due_now host s ≡ some (r, s')
        → Step s s'
    closed : Step s (close host s).1

  -- An engine as `NewEngine` returns it, with nothing written.
  abbrev pub opened : Engine Value → ℕ → Session Value
  opened e reads = record { engine = e; log = []; reads = reads }

  -- What the calls make of an engine with these settings.
  pub data Reachable (cfg : EngineConfig) : Session Value → Type 0 where
    created :
        (read : String → StateFile) (has_sink : Bool) (now : Time) (reads : ℕ) (e : Engine Value)
        → new_engine host read has_sink now cfg ≡ ok e
        → Reachable cfg (opened e reads)
    called : {s s' : Session Value} → Reachable cfg s → Step s s' → Reachable cfg s'

  first_window_lem :
      (cfg : EngineConfig) (now : Time)
      → is_on_shutdown cfg ≡ false
      → let start = truncate now cfg.window_size in
        first_window host cfg now ≡ window_from start (add_duration start cfg.window_size)
  unfolding first_window align_window
  first_window_lem cfg now mode = rw mode refl

  first_window-IsAligned :
      (cfg : EngineConfig) (now : Time)
      → is_on_shutdown cfg ≡ false
      → Int.le cfg.window_size (pos 0) ≡ false
      → IsAligned cfg (first_window host cfg now)
  unfolding window_from
  first_window-IsAligned cfg now mode positive =
      let (size, sized, positive') = positive_lem cfg.window_size positive in
      let first = first_window_lem cfg now mode in
      let start = ap (λ w. w.start) first ∙ ap (truncate now) sized in
      record {
        size = size;
        sized = sized;
        positive = positive';
        multiple = now / size;
        start = start ∙ truncate_lem now size positive';
        end =
            ap (λ w. w.end) first
            ∙ ap (λ z. add_duration (truncate now z) z) sized
            ∙ add_duration-pos (truncate now (pos size)) size
            ∙ ap (λ t. t + size) (sym start);
        within = ground (arith, ap (λ w. length w.spans) first);
      }

  -- What holds of a new engine.
  abbrev IsNewWindowed : ℕ → Result NewEngineError (Engine Value) → Type 0
  IsNewWindowed reads (ok e) = IsWindowed host (opened e reads)
  IsNewWindowed reads (err e) = Unit

  module _ (given : EngineConfig) (mode : is_on_shutdown given ≡ false) where
    new_engine-IsWindowed :
        (read : String → StateFile) (has_sink : Bool) (now : Time) (reads : ℕ) (e : Engine Value)
        → new_engine host read has_sink now given ≡ ok e
        → IsWindowed host (opened e reads)
    unfolding new_engine
    new_engine-IsWindowed read has_sink now reads e made =
        let cfg = with_mode given in
        let (u, checked, rest) = >>=-eq-ok (check_engine_config has_sink cfg) _ made in
        let (r, built, done) = >>=-eq-ok (reconciler_for host read cfg) _ rest in
        let windowed = is_on_shutdown-with_mode given ∙ mode in
        subst (IsNewWindowed reads) done (record {
          mode = windowed;
          aligned =
              first_window-IsAligned cfg now windowed
                (check_engine_config_lem has_sink cfg checked windowed);
          chained = record { previous = refl; compared = tt };
        })

    Step-IsWindowed : {s s' : Session Value} → IsWindowed host s → Step s s' → IsWindowed host s'
    Step-IsWindowed {s} h (ingested spans received_at source returned) =
        Keeps-IsWindowed host (ingest_with_source-Keeps host spans received_at source s h) returned
    Step-IsWindowed {s} h (flushed returned) =
        Keeps-IsWindowed host (flush_due_now-Keeps host s h) returned
    Step-IsWindowed {s} h closed = close-IsWindowed host s h

    -- Whatever calls are made of a new engine that is not for one batch until shutdown, and whatever
    -- they return: the window has the configured size and starts at a multiple of it; its buffer is
    -- within the limit; and each published envelope is the normal form of one whose diff is what
    -- `ComputeDiff` counts of it against the envelope published before it, the last of which is the
    -- engine's previous one.
    pub Reachable-IsWindowed : {s : Session Value} → Reachable given s → IsWindowed host s
    Reachable-IsWindowed (created read has_sink now reads e made) =
        new_engine-IsWindowed read has_sink now reads e made
    Reachable-IsWindowed (called reached step) = Step-IsWindowed (Reachable-IsWindowed reached) step

    -- Whatever calls were made of a new engine that is not for one batch until shutdown, the next
    -- request and the next flush return, since the loop that flushes the due windows ends.
    pub Reachable-returns :
        {s : Session Value} (spans : List (Span Value)) (received_at : Time)
        (source : SourceSummary)
        → Reachable given s
        → Keeps host (ingest_with_source host spans received_at source s)
          × Keeps host (flush_due_now host s)
    Reachable-returns {s} spans received_at source reached =
        let h = Reachable-IsWindowed reached in
        (ingest_with_source-Keeps host spans received_at source s h, flush_due_now-Keeps host s h)
