-- ===== src/Reconciliation/Process/Versioning.antt =====
-- engine.go: how `Process` numbers the windows and the topologies that it publishes.
use bering.Prelude.{
  String, ◌≡◌, refl, ◌∙◌, ap, subst, Bool, not, ◌==◌, if◌then◌else◌, Result, ok, err, ◌>>◌,
  >>=-eq-ok, Bool-cases, inl, inr, ◌⊎◌,
}
use bering.Go.Int
use bering.Go.Int.{ℤ, pos}
use bering.Go.Float.{FloatOps}
use bering.Reconciliation.Types as Types
use bering.Reconciliation.Types.{
  Versions, ProjectionName, stable_core, guardrail_union, Observation, Projection, EntityState,
  PersistedState,
}
use bering.Reconciliation.Config.{Config}
use bering.Reconciliation.Projection.{
  External, ProcessError, projected, previous_hash, build_projection, build_raw_projection,
  topology_fingerprint, bump_projection_version, bump_if,
}
use bering.Reconciliation.Compaction.{compact_if_due}
use bering.Reconciliation.Compaction.Survivors.{header, header-compact_if_due}
use bering.Reconciliation.Window.{
  Advanced, advance_window, observe_window, sweep, ensure_state_maps, next_observation_version,
}
use bering.Reconciliation.Process.{
  Reconciler, finish, saved, process_checked, process, validate_observation, in_stable_core,
  in_guardrail_union,
}
use bering.Reconciliation.Process.Soundness.{Outcome, or_error-lem}

-- A topology is numbered anew exactly when its hash is not the one that was published last.
pub record IsNumbered (p : Projection) (last : String) (before after : ℤ) (kept : String)
    : Type 0 where
  pub changed : p.changed ≡ not (p.topology_version == last)
  pub version : after ≡ (if p.changed then Int.add before (pos 1) else before)
  pub hash : kept ≡ p.topology_version

-- How a result numbers itself and what it published.
pub record IsVersioned (before after : PersistedState) (res : Types.Result) : Type 0 where
  pub window :
      after.versions.observation_version ≡ Int.add before.versions.observation_version (pos 1)
  pub stable :
      IsNumbered res.stable_core before.stable_core_topology_hash
        before.versions.stable_core_version after.versions.stable_core_version
        after.stable_core_topology_hash
  pub guardrail :
      IsNumbered res.guardrail_union before.guardrail_union_topology_hash
        before.versions.guardrail_union_version after.versions.guardrail_union_version
        after.guardrail_union_topology_hash
  pub reported : res.report.versions ≡ after.versions

abbrev pub Versioned : Reconciler → Outcome → Type 0
Versioned r (err e, r') =
    (r' ≡ r)
    ⊎ (r'.state.versions.observation_version ≡ Int.add r.state.versions.observation_version (pos 1))
Versioned r (ok res, r') = IsVersioned r.state r'.state res

-- The header of the state in which the projections are built.
abbrev counted : PersistedState → Versions × String × String
counted state = header (next_observation_version state)

module _ (fl : FloatOps) (ext : External) where
  header-advance_window :
      (cfg : Config) (state : PersistedState) (obs : Observation)
      → header (advance_window fl ext cfg state obs).state ≡ counted state
  unfolding advance_window observe_window sweep next_observation_version ensure_state_maps
  header-advance_window cfg state obs = elim (Bool-cases (Int.equal state.format_version (pos 0))) [
    | inl unset ↦ rw unset refl
    | inr set ↦ rw set refl
  ]

  abbrev Compares : String → Result ProcessError Projection → Type 0
  Compares last (err e) = Unit
  Compares last (ok p) = p.changed ≡ not (p.topology_version == last)

  build_projection-changed :
      (state : PersistedState) (name : ProjectionName) (obs : Observation)
      (include : EntityState → Bool) (p : Projection)
      → build_projection ext fl state name obs include ≡ ok p
      → p.changed ≡ not (p.topology_version == previous_hash ext state name)
  unfolding build_projection
  build_projection-changed state name obs include p built =
      let (hash, hashed, made) =
        >>=-eq-ok (topology_fingerprint ext (projected ext fl state obs include).model) _ built in
      subst (Compares (previous_hash ext state name)) made refl

  finish-Versioned :
      (save : String → PersistedState → Bool) (obs : Observation) (a : Advanced)
      (compaction : Types.CompactionSummary) (raw stable guardrail : Projection)
      (first r : Reconciler)
      → header r.state ≡ counted first.state
      → stable.changed ≡ not (stable.topology_version == r.state.stable_core_topology_hash)
      → guardrail.changed
        ≡ not (guardrail.topology_version == r.state.guardrail_union_topology_hash)
      → Versioned first (finish fl ext save obs a compaction raw stable guardrail r)
  unfolding finish bump_projection_version bump_if next_observation_version
  finish-Versioned save obs a compaction raw stable guardrail first r same hs hg =
      let window = ap (λ h. h.0.observation_version) same in
      let state =
        bump_projection_version guardrail_union guardrail
          (bump_projection_version stable_core stable r.state) in
      elim (Bool-cases (saved fl ext save r.cfg.state_path state)) [
        | inl done ↦ rw done (record {
          window = window;
          stable = record {
            changed = hs ∙ ap (λ h. not (stable.topology_version == h.1)) same;
            version =
                ap
                  (λ h.
                    if stable.changed
                    then Int.add h.0.stable_core_version (pos 1)
                    else h.0.stable_core_version)
                  same;
            hash = refl;
          };
          guardrail = record {
            changed = hg ∙ ap (λ h. not (guardrail.topology_version == h.2)) same;
            version =
                ap
                  (λ h.
                    if guardrail.changed
                    then Int.add h.0.guardrail_union_version (pos 1)
                    else h.0.guardrail_union_version)
                  same;
            hash = refl;
          };
          reported = refl;
        })
        | inr failed ↦ rw failed (inr window)
      ]

  module _ (save : String → PersistedState → Bool) (r : Reconciler) (obs : Observation) where
    process_checked-Versioned :
        (raw : Projection) → Versioned r (process_checked fl ext save r obs raw)
    unfolding process_checked next_observation_version previous_hash
    process_checked-Versioned raw =
        let a = advance_window fl ext r.cfg r.state obs in
        let state = (compact_if_due ext.clock r.cfg obs.window_end a.state).0 in
        let r' : Reconciler = record r { state = state } in
        let same =
          header-compact_if_due ext.clock r.cfg obs.window_end a.state
          ∙ header-advance_window r.cfg r.state obs in
        let window = ap (λ h. h.0.observation_version) same in
        let core = in_stable_core fl r.cfg in
        let union = in_guardrail_union fl r.cfg a.state.versions.observation_version in
        or_error-lem (Versioned r) r' (build_projection ext fl state stable_core obs core) _
          (λ e failed. inr window)
          λ stable built.
            or_error-lem (Versioned r) r' (build_projection ext fl state guardrail_union obs union)
              _ (λ e failed. inr window)
              λ guardrail built'.
                finish-Versioned save obs a _ raw stable guardrail r r' same
                  (build_projection-changed state stable_core obs core stable built)
                  (build_projection-changed state guardrail_union obs union guardrail built')

    -- A window that is processed to the end is numbered one up from the last, modulo 64 bits; each
    -- of the stable core and the guardrail union is marked as changed, and its version raised by
    -- one, exactly when its hash is not the one kept before, its hash is kept, and the report shows
    -- the versions of the state. A window that fails is counted or leaves the reconciler as it was.
    pub process-Versioned : Versioned r (process fl ext save r obs)
    unfolding process
    process-Versioned =
        or_error-lem (Versioned r) r (validate_observation obs >> build_raw_projection ext fl obs)
          (process_checked fl ext save r obs) (λ e failed. inl refl)
          (λ raw built. process_checked-Versioned raw)
