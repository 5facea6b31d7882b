-- ===== src/Runtime/Publish/Once.antt =====
-- engine.go: what a flush publishes.
use bering.Prelude.{subst, sym, ◌≡◌, refl, Option, none, some, Bool-cases, inl, inr, is_empty}
use mathlib.Core.Option
use bering.Go.Time.{Time}
use bering.Snapshot.Types.{Envelope}
use bering.Discovery.Types as Discovery
use bering.Reconciliation.Types as Types
use bering.Reconciliation.Types.{Projection}
use bering.Reconciliation.Process.{Reconciler}
use bering.Runtime.Types.{EngineConfig, not_digested, Engine, WindowState}
use bering.Runtime.Envelope.{compare_and_sort, build_snapshot_envelope, build_projection_snapshot}
use bering.Runtime.Session.{
  fail, published, Host, continue, return, ◌then◌, modify, clock, write, required,
}
use bering.Runtime.Session.Quiet.{IsFramed-refl, clock-Silent}
use bering.Runtime.Publish.{
  write_primary_snapshot, publish_guardrail_union, flush_reconciled, publish_window, flush_window,
}
use bering.Runtime.Publish.Outcome.{
  IsCompared, compare_and_sort-IsCompared, Once, Silent-Once, then-Once,
}
use bering.Runtime.Publish.Views.{
  keeps_previous_raw, keeps_previous_stable, keep_report-Silent, reconcile-Silent,
  write_reports-Silent, write_view-Silent, discovered_in-Silent,
}

-- What was mapped.
map-eq-some :
    {A B C : Type 0} (o : Option A) (f : A → B) (g : B → C) {c : C}
    → Option.map (λ a. g (f a)) o ≡ some c
    → (b : B) × (c ≡ g b)
map-eq-some none f g h = cc
map-eq-some (some a) f g h = (f a, cc)

module _ {Value : Type 0} (host : Host Value) where
  write_primary_snapshot-Once :
      (previous : Option Envelope) (env : Envelope)
      → IsCompared host previous env
      → Once host previous (write_primary_snapshot host env)
  unfolding Once write_primary_snapshot write ◌then◌ continue clock modify
  write_primary_snapshot-Once previous env h s =
      elim (Bool-cases (host.accepts s.log (published env))) [
        | inl accepted ↦ rw accepted (record {
          frame = record {
            cfg = refl;
            current = refl;
            closed = refl;
            close_err = refl;
            terminal_err = refl;
          };
          outcome = inr (record { env = env; compared = h; kept = refl; published = refl });
        })
        | inr refused ↦
            rw refused (record { frame = IsFramed-refl s.engine; outcome = inl (refl, refl) })
      ]

  build_projection_snapshot-IsCompared :
      (cfg : EngineConfig) (current : WindowState Value) (projection : Projection)
      (previous : Option Envelope) (started : Time)
      → IsCompared host previous
          (build_projection_snapshot host cfg current projection previous started)
  unfolding build_projection_snapshot
  build_projection_snapshot-IsCompared cfg current projection previous started =
      compare_and_sort-IsCompared host previous _

  publish_guardrail_union-Once :
      (previous : Option Envelope) (result : Types.Result) (env : Envelope)
      → IsCompared host previous env
      → Once host previous (publish_guardrail_union host result env)
  unfolding publish_guardrail_union
  publish_guardrail_union-Once previous result env h =
      elim (Bool-cases (is_empty result.guardrail_union.model.services)) [
        | inl empty ↦ rw empty (Silent-Once host previous _ (keep_report-Silent host result.report))
        | inr full ↦ rw full (
            then-Once host previous _ _ (keep_report-Silent host result.report)
              λ _. write_primary_snapshot-Once previous env h)
      ]

  build_snapshot_envelope-IsCompared :
      (cfg : EngineConfig) (current : WindowState Value) (result : Discovery.Result)
      (previous : Option Envelope) (started : Time) (env : Envelope)
      → build_snapshot_envelope host cfg current result previous started ≡ some env
      → IsCompared host previous env
  unfolding build_snapshot_envelope
  build_snapshot_envelope-IsCompared cfg current result previous started env built =
      let (raw, made) =
        map-eq-some (host.topology_digest result.model) _ (compare_and_sort host previous) built in
      subst (IsCompared host previous) (sym made) (compare_and_sort-IsCompared host previous raw)

  flush_reconciled-Once :
      (r : Reconciler) (e : Engine Value) (current : WindowState Value) (result : Discovery.Result)
      (started : Time)
      → Once host e.previous (flush_reconciled host r e current result started)
  unfolding flush_reconciled
  flush_reconciled-Once r e current result started =
      then-Once host e.previous _ _ (reconcile-Silent host r _) λ reconciled.
        then-Once host e.previous _ _ (write_reports-Silent host e.cfg _) λ _.
          then-Once host e.previous _ _
            (write_view-Silent host _ _ _ _ _ _ _ _ (keeps_previous_raw host _))
            λ _.
              then-Once host e.previous _ _
                (write_view-Silent host _ _ _ _ _ _ _ _ (keeps_previous_stable host _))
                λ _.
                  publish_guardrail_union-Once e.previous reconciled _
                    (build_projection_snapshot-IsCompared e.cfg current _ e.previous started)

  build_snapshot_envelope-Once :
      (previous : Option Envelope) (built : Option Envelope)
      → ((env : Envelope) → built ≡ some env → IsCompared host previous env)
      → Once host previous (required not_digested built then write_primary_snapshot host)
  unfolding required fail return ◌then◌ continue Once
  build_snapshot_envelope-Once previous none h s = record {
    frame = IsFramed-refl s.engine;
    outcome = inl (refl, refl);
  }
  build_snapshot_envelope-Once previous (some env) h s =
      write_primary_snapshot-Once previous env (h env refl) s

  publish_window-Once :
      (r : Option Reconciler) (e : Engine Value) (current : WindowState Value)
      (result : Discovery.Result) (started : Time)
      → Once host e.previous (publish_window host r e current result started)
  unfolding publish_window
  publish_window-Once none e current result started =
      build_snapshot_envelope-Once e.previous
        (build_snapshot_envelope host e.cfg current result e.previous started)
        (build_snapshot_envelope-IsCompared e.cfg current result e.previous started)
  publish_window-Once (some r) e current result started =
      flush_reconciled-Once r e current result started

  -- The publication of a window.
  pub flush_window-Once : (e : Engine Value) → Once host e.previous (flush_window host e)
  unfolding flush_window
  flush_window-Once e = then-Once host e.previous _ _ (clock-Silent host) λ started.
      then-Once host e.previous _ _ (discovered_in-Silent host e e.current)
        λ discovered. publish_window-Once e.reconciler e e.current discovered started
