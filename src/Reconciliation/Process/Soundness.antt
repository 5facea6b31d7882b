-- ===== src/Reconciliation/Process/Soundness.antt =====
-- engine.go: what `Process` publishes, and what it leaves behind on every path.
use bering.Prelude.{
  String, ◌≡◌, refl, subst, Bool, true, All, is_empty, Result, ok, err, ◌>>◌, >>-eq-ok_iff,
  >>=-eq-ok, Bool-cases, inl, inr, ◌⊎◌, arith,
}
use bering.Go.Float.{FloatOps}
use bering.Model.Types.{ResilienceModel}
use bering.Model.Integrity.{HasIntegrity, IsResolved}
use bering.Model.Validate.Targets.{validate_semantic-IsResolved}
use bering.Reconciliation.Types as Types
use bering.Reconciliation.Types.{
  ProjectionName, stable_core, guardrail_union, Observation, Projection, EntityState,
  PersistedState,
}
use bering.Reconciliation.Projection.{
  External, ProcessError, projected, build_projection, build_raw_projection, topology_fingerprint,
  bump_projection_version, checked_model,
}
use bering.Reconciliation.Projection.Integrity.{projected-HasIntegrity}
use bering.Reconciliation.Compaction.{compact_if_due}
use bering.Reconciliation.Compaction.Survivors.{All-compact_if_due}
use bering.Reconciliation.Window.{Advanced, advance_window}
use bering.Reconciliation.Process.{
  Reconciler, or_error, finish, saved, process_checked, process, validate_observation,
  in_stable_core, in_guardrail_union,
}
use bering.Reconciliation.Process.Filing.{IsKept, IsConsistent-IsKept, advance_window-IsKept}

abbrev pub Outcome : Type 0
Outcome = Result ProcessError Types.Result × Reconciler

-- A window without services is published unchecked, another with every reference resolved.
abbrev pub IsSoundWindow : ResilienceModel → Type 0
IsSoundWindow m = (is_empty m.services ≡ true) ⊎ IsResolved m

abbrev pub IsSound : Result ProcessError Types.Result → Type 0
IsSound (err e) = Unit
IsSound (ok res) =
    IsSoundWindow res.raw_window.model
    × HasIntegrity res.stable_core.model
    × HasIntegrity res.guardrail_union.model

abbrev pub IsSoundOutcome : Outcome → Type 0
IsSoundOutcome (o, r) = IsSound o × All IsKept r.state.services

-- What a claim on the outcome needs of the call that may fail and of what follows it.
pub or_error-lem {ℓ} :
    (Q : Outcome → Type ℓ) (r : Reconciler) (c : Result ProcessError Projection)
    (k : Projection → Outcome)
    → ((e : ProcessError) → c ≡ err e → Q (err e, r))
    → ((p : Projection) → c ≡ ok p → Q (k p))
    → Q (or_error r c k)
or_error-lem Q r (err e) k failed passed = failed e refl
or_error-lem Q r (ok p) k failed passed = passed p refl

module _ (fl : FloatOps) (ext : External) where
  -- A claim on the model of a projection that was built.
  abbrev Publishes {ℓ} : (ResilienceModel → Type ℓ) → Result ProcessError Projection → Type ℓ
  Publishes P (err e) = Unit
  Publishes P (ok p) = P p.model

  build_projection-HasIntegrity :
      (state : PersistedState) (name : ProjectionName) (obs : Observation)
      (include : EntityState → Bool) (p : Projection)
      → All IsKept state.services
      → build_projection ext fl state name obs include ≡ ok p
      → HasIntegrity p.model
  unfolding build_projection
  build_projection-HasIntegrity state name obs include p h built =
      let (hash, hashed, made) =
        >>=-eq-ok (topology_fingerprint ext (projected ext fl state obs include).model) _ built in
      subst (Publishes HasIntegrity) made
        (projected-HasIntegrity fl ext state obs include (IsConsistent-IsKept state.services h))

  checked_model-IsSoundWindow :
      (m : ResilienceModel) → checked_model ext fl m ≡ ok tt → IsSoundWindow m
  unfolding checked_model
  checked_model-IsSoundWindow m h = elim (Bool-cases (is_empty m.services)) [
    | inl empty ↦ inl empty
    | inr full ↦ inr (validate_semantic-IsResolved fl ext.clock m (ground arith))
  ]

  build_raw_projection-IsSoundWindow :
      (obs : Observation) (p : Projection)
      → build_raw_projection ext fl obs ≡ ok p
      → IsSoundWindow p.model
  unfolding build_raw_projection
  build_raw_projection-IsSoundWindow obs p built =
      let (checked, rest) = (>>-eq-ok_iff (checked_model ext fl obs.result.model) _).0 built in
      let (hash, hashed, made) = >>=-eq-ok (topology_fingerprint ext obs.result.model) _ rest in
      subst (Publishes IsSoundWindow) made (checked_model-IsSoundWindow obs.result.model checked)

  finish-IsSound :
      (save : String → PersistedState → Bool) (obs : Observation) (a : Advanced)
      (compaction : Types.CompactionSummary) (raw stable guardrail : Projection) (r : Reconciler)
      → IsSoundWindow raw.model
      → HasIntegrity stable.model
      → HasIntegrity guardrail.model
      → All IsKept r.state.services
      → let after = finish fl ext save obs a compaction raw stable guardrail r in
        IsSound after.0 × All IsKept after.1.state.services
  unfolding finish bump_projection_version
  finish-IsSound save obs a compaction raw stable guardrail r hr hs hg h =
      let state =
        bump_projection_version guardrail_union guardrail
          (bump_projection_version stable_core stable r.state) in
      elim (Bool-cases (saved fl ext save r.cfg.state_path state)) [
        | inl done ↦ rw done ((hr, hs, hg), h)
        | inr failed ↦ rw failed (tt, h)
      ]

  module _ (save : String → PersistedState → Bool) (r : Reconciler) (obs : Observation) where
    process_checked-IsSound :
        (raw : Projection)
        → All IsKept r.state.services
        → IsSoundWindow raw.model
        → let after = process_checked fl ext save r obs raw in
          IsSound after.0 × All IsKept after.1.state.services
    unfolding process_checked
    process_checked-IsSound raw h sound =
        let a = advance_window fl ext r.cfg r.state obs in
        let state = (compact_if_due ext.clock r.cfg obs.window_end a.state).0 in
        let r' : Reconciler = record r { state = state } in
        let kept =
          All-compact_if_due IsKept ext.clock r.cfg obs.window_end a.state
            (advance_window-IsKept fl ext r.cfg r.state obs h) in
        let version = a.state.versions.observation_version in
        let core = in_stable_core fl r.cfg in
        let union = in_guardrail_union fl r.cfg version in
        or_error-lem IsSoundOutcome r' (build_projection ext fl state stable_core obs core) _
          (λ e failed. (tt, kept))
          λ stable built.
            or_error-lem IsSoundOutcome r' (build_projection ext fl state guardrail_union obs union)
              _ (λ e failed. (tt, kept))
              λ guardrail built'.
                finish-IsSound save obs a _ raw stable guardrail r' sound
                  (build_projection-HasIntegrity state stable_core obs core stable kept built)
                  (build_projection-HasIntegrity state guardrail_union obs union guardrail kept
                    built')
                  kept

    -- Whatever window arrives and wherever its processing stops, the retained services stay filed
    -- under their names if they were; and a result has the ends of its edges and the entry services
    -- of its endpoints among the services of the stable core and of the guardrail union, and every
    -- reference to a service, the mandatory targets of the endpoints too, resolved in the raw window,
    -- unless that holds no service.
    pub process-IsSound :
        All IsKept r.state.services
        → let after = process fl ext save r obs in
          IsSound after.0 × All IsKept after.1.state.services
    unfolding process
    process-IsSound h =
        or_error-lem IsSoundOutcome r (validate_observation obs >> build_raw_projection ext fl obs)
          (process_checked fl ext save r obs) (λ e failed. (tt, h))
          λ raw built. process_checked-IsSound raw h (
            build_raw_projection-IsSoundWindow obs raw
              ((>>-eq-ok_iff (validate_observation obs) _).0 built).1)
