-- ===== src/Reconciliation/Process/Filing.antt =====
-- engine.go: the names under which services are retained, through a window.
use bering.Prelude.{
  arith, String, ◌≡◌, refl, ◌∙◌, Bool, Option, none, some, [], ◌∷◌, All, subst, sym, Option-cases,
  Bool-cases, inl, inr,
}
use bering.Go.Int
use bering.Go.Int.{ℤ, pos}
use bering.Go.Float.{FloatOps}
use bering.Go.Time.{Time, Rfc3339}
use bering.Go.Map.{Map, lookup, has, All-put, All-lookup}
use bering.Model.Types.{Service}
use bering.Reconciliation.Types.{
  Kind, service, edge, endpoint, Observation, EntitySnapshot, EntityState, PersistedState,
  TelemetryHealth,
}
use bering.Reconciliation.Config.{Config}
use bering.Reconciliation.Lifecycle.Observe.{
  ensure_entity_state, new_entity_state, copy_payload, observe_entity,
}
use bering.Reconciliation.Lifecycle.Advance.{
  advance_lifecycle, qualified_miss, count_miss, penalize, settle, without_opportunity,
}
use bering.Reconciliation.Health.{evaluate_telemetry_health}
use bering.Reconciliation.Index.{build_observation_index, service_opportunity}
use bering.Reconciliation.Index.Naming.{Shows, IsNamed, build_observation_index-Shows}
use bering.Reconciliation.Projection.{External}
use bering.Reconciliation.Projection.Integrity.{IsFiled, IsConsistent}
use bering.Reconciliation.Window.{
  observe_all, advance_all, observe_window, sweep, advance_window, ensure_state_maps,
  next_observation_version,
}

-- The state of a service is kept under its name, as is the service that it holds.
abbrev pub IsKept : String × EntityState → Type 0
IsKept (k, s) = (s.id ≡ k) × IsNamed k s.service

filed : (s : EntityState) {k : String} (o : Option Service) → s.id ≡ k → IsNamed k o → IsFiled s o
filed s none e n = tt
filed s (some item) e n = n ∙ sym e

pub IsConsistent-IsKept : (m : Map EntityState) → All IsKept m → IsConsistent m
IsConsistent-IsKept [] h = tt
IsConsistent-IsKept ((k, s) ∷ m) h = (filed s s.service h.0.0 h.0.1, IsConsistent-IsKept m h.1)

module _ (fl : FloatOps) where
  ensure-IsKept :
      (m : Map EntityState) (kind : Kind) (k : String)
      → All IsKept m
      → IsKept (k, ensure_entity_state fl m kind k)
  unfolding ensure_entity_state new_entity_state
  ensure-IsKept m kind k h = elim (Option-cases (lookup k m)) [
    | inl missing ↦ rw missing (refl, tt)
    | inr (s, found) ↦ rw found (All-lookup IsKept k m found h)
  ]

  module _ (cfg : Config) (clock : Rfc3339) where
    copy-IsKept :
        (k : String) (snap : EntitySnapshot) (kind : Kind) (s : EntityState)
        → IsKept (k, s)
        → Shows (k, snap)
        → IsKept (k, copy_payload fl cfg clock snap kind s)
    unfolding copy_payload
    copy-IsKept k snap service s h named = (h.0, named)
    copy-IsKept k snap edge s h named = h
    copy-IsKept k snap endpoint s h named = h

    observe-IsKept :
        (k : String) (s : EntityState) (snap : EntitySnapshot) (version : ℤ) (now : Time)
        → IsKept (k, s)
        → Shows (k, snap)
        → IsKept (k, observe_entity fl cfg clock s snap version now)
    unfolding observe_entity
    observe-IsKept k s snap version now h named = copy-IsKept k snap snap.kind _ h named

    same_payload :
        (s : EntityState) (version : ℤ) (now : Time) (opportunity : ℤ) (observed : Bool)
        (health : TelemetryHealth)
        → let s' = (advance_lifecycle fl cfg clock s version now opportunity observed health).0 in
          (s'.id ≡ s.id) × (s'.service ≡ s.service)
    unfolding advance_lifecycle qualified_miss count_miss penalize settle without_opportunity
    same_payload s version now opportunity observed health = ground arith

    advance-IsKept :
        (k : String) (s : EntityState) (version : ℤ) (now : Time) (opportunity : ℤ)
        (observed : Bool) (health : TelemetryHealth)
        → IsKept (k, s)
        → IsKept (k, (advance_lifecycle fl cfg clock s version now opportunity observed health).0)
    advance-IsKept k s version now opportunity observed health h =
        let same = same_payload s version now opportunity observed health in
        (same.0 ∙ h.0, subst (IsNamed k) (sym same.1) h.1)

  module _ (cfg : Config) (ext : External) (now : Time) where
    observe_all-IsKept :
        (kind : Kind) (version : ℤ) (shown : Map EntitySnapshot) (bucket : Map EntityState)
        → All Shows shown
        → All IsKept bucket
        → All IsKept (observe_all fl cfg ext now kind version shown bucket)
    unfolding observe_all
    observe_all-IsKept kind version [] bucket named h = h
    observe_all-IsKept kind version ((id, snap) ∷ rest) bucket named h =
        observe_all-IsKept kind version rest _ named.1 (
          All-put IsKept id _ bucket
            (observe-IsKept cfg ext.clock id (ensure_entity_state fl bucket kind id) snap version
              now (ensure-IsKept bucket kind id h) named.0)
            h)

    advance_all-IsKept :
        (kind : Kind) (version : ℤ) (opportunity : String → ℤ) (observed : String → Bool)
        (health : TelemetryHealth) (bucket : Map EntityState)
        → All IsKept bucket
        → All IsKept
            (advance_all fl cfg ext now kind version opportunity observed health bucket).bucket
    unfolding advance_all
    advance_all-IsKept kind version opportunity observed health [] h = tt
    advance_all-IsKept kind version opportunity observed health ((id, s) ∷ rest) h = (
      advance-IsKept cfg ext.clock id s version now (opportunity id) (observed id) health h.0,
      advance_all-IsKept kind version opportunity observed health rest h.1,
    )

  ensure_state_maps-IsKept :
      (state : PersistedState)
      → All IsKept state.services
      → All IsKept (ensure_state_maps state).services
  unfolding ensure_state_maps
  ensure_state_maps-IsKept state h = elim (Bool-cases (Int.equal state.format_version (pos 0))) [
    | inl unset ↦ rw unset h
    | inr set ↦ rw set h
  ]

  pub advance_window-IsKept :
      (ext : External) (cfg : Config) (before : PersistedState) (obs : Observation)
      → All IsKept before.services
      → All IsKept (advance_window fl ext cfg before obs).state.services
  unfolding advance_window observe_window sweep next_observation_version
  advance_window-IsKept ext cfg before obs h =
      let counted = next_observation_version (ensure_state_maps before) in
      let version = counted.versions.observation_version in
      let index = build_observation_index obs in
      let (health, ema) = evaluate_telemetry_health fl cfg counted.volume_ema obs.ingest in
      let observed =
        observe_window fl cfg ext obs.window_end version index
          (record counted { volume_ema = ema }) in
      advance_all-IsKept cfg ext obs.window_end service version (service_opportunity observed index)
        (λ id. has id index.services) health observed.services
        (observe_all-IsKept cfg ext obs.window_end service version index.services
          (ensure_state_maps before).services (build_observation_index-Shows obs)
          (ensure_state_maps-IsKept before h))
