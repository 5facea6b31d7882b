-- ===== src/Runtime/Publish/Views.antt =====
-- engine.go: the calls of a flush that publish no envelope: views, reports and reconciliation.
use bering.Prelude.{◌≡◌, refl, some, Bool-cases, inl, inr, is_empty, String}
use bering.Go.Int.{ℤ}
use bering.Snapshot.Types.{Envelope}
use bering.Reconciliation.Types as Types
use bering.Reconciliation.Types.{Projection, ProjectionName, Report}
use bering.Reconciliation.Process.{Reconciler}
use bering.Runtime.Types.{EngineConfig, EngineError, Engine, WindowState}
use bering.Runtime.Session.{Host}
use bering.Runtime.Session.Quiet.{
  IsFramed, Silent, return-Silent, required-Silent, modify-Silent, then-Silent, write_unless-Silent,
}
use bering.Runtime.Publish.{write_view, reconcile, keep_report, write_reports, discovered_in}

module _ {Value : Type 0} (host : Host Value) where
  -- Both fields of a view that is kept.
  pub keeps_previous_raw :
      (env : Envelope) (e : Engine Value)
      → let e' : Engine Value = record e { previous_raw = some env } in
        IsFramed e e' × (e'.previous ≡ e.previous)
  keeps_previous_raw env e = (
    record { cfg = refl; current = refl; closed = refl; close_err = refl; terminal_err = refl },
    refl,
  )

  pub keeps_previous_stable :
      (env : Envelope) (e : Engine Value)
      → let e' : Engine Value = record e { previous_stable = some env } in
        IsFramed e e' × (e'.previous ≡ e.previous)
  keeps_previous_stable env e = (
    record { cfg = refl; current = refl; closed = refl; close_err = refl; terminal_err = refl },
    refl,
  )

  pub keep_report-Silent : (report : Report) → Silent (keep_report host report)
  unfolding keep_report
  keep_report-Silent report = modify-Silent _ λ e. (
    record { cfg = refl; current = refl; closed = refl; close_err = refl; terminal_err = refl },
    refl,
  )

  pub reconcile-Silent :
      (r : Reconciler) (observation : Types.Observation) → Silent (reconcile host r observation)
  unfolding reconcile Silent
  reconcile-Silent r observation s = record {
    frame = record {
      cfg = refl;
      current = refl;
      closed = refl;
      close_err = refl;
      terminal_err = refl;
    };
    previous = refl;
    published = refl;
  }

  pub write_reports-Silent :
      (cfg : EngineConfig) (report : Report) → Silent (write_reports host cfg report)
  unfolding write_reports
  write_reports-Silent cfg report =
      then-Silent _ _ (write_unless-Silent host _ _ _ refl) λ _. write_unless-Silent host _ _ _ refl

  pub write_view-Silent :
      (path : String) (error : EngineError) (name : ProjectionName) (observation version : ℤ)
      (projection : Projection) (env : Envelope) (keep : Envelope → Engine Value → Engine Value)
      → ((e : Engine Value) → IsFramed e (keep env e) × ((keep env e).previous ≡ e.previous))
      → Silent (write_view host path error name observation version projection env keep)
  unfolding write_view
  write_view-Silent path error name observation version projection env keep h =
      elim (Bool-cases (is_empty projection.model.services)) [
        | inl absent ↦ rw absent (write_unless-Silent host _ _ _ refl)
        | inr present ↦
            rw present
              (then-Silent _ _ (write_unless-Silent host _ _ _ refl) λ _. modify-Silent _ h)
      ]

  pub discovered_in-Silent :
      (e : Engine Value) (current : WindowState Value) → Silent (discovered_in host e current)
  unfolding discovered_in
  discovered_in-Silent e current = elim (Bool-cases (is_empty current.spans)) [
    | inl idle ↦ rw idle (return-Silent Value _)
    | inr busy ↦ rw busy (required-Silent Value _ _)
  ]
