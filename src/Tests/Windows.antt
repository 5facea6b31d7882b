-- ===== src/Tests/Windows.antt =====
-- The state of the reconciler at small inputs.
use bering.Model.Normalize.Sort.{sort_deterministic}
use bering.Go.Sort.{sort}
use bering.Reconciliation.Selection.{select_services}
use bering.Reconciliation.Index.{build_observation_index}
use bering.Go.Map.{lookup, put, has}
use bering.Reconciliation.Process.{in_stable_core}
use bering.Reconciliation.Lifecycle.Advance.{advance_lifecycle}
use bering.Reconciliation.Lifecycle.Observe.{observe_entity, ensure_entity_state}
use bering.Reconciliation.Numbers.{clamp01}
use bering.Prelude.{refl, ◌≡◌, true, [], ℕ, length, Result, ok, err, ◌+◌, ◌*◌, All}
use bering.Go.Float.{thousandths}
use bering.Go.Int.{pos, sub, add}
use bering.Go.Text.{trim_space}
use bering.Go.Map.{contains}
use bering.Model.Validate.{validate_semantic}
use bering.Model.Validate.Parts.{validate_service_metadata}
use bering.Reconciliation.Types as Types
use bering.Go.Time.{unix_epoch, second}
use bering.Model.Integrity.{HasIntegrity}
use bering.Reconciliation.Config.{Config, default_config}
use bering.Reconciliation.Projection.{
  projected, ProcessError, build_raw_projection, build_projection, bump_projection_version,
}
use bering.Reconciliation.Projection.Integrity.{projected-HasIntegrity}
use bering.Reconciliation.Compaction.{compact_if_due}
use bering.Reconciliation.Types.{Observation}
use bering.Reconciliation.Process.{Reconciler, process}
use bering.Reconciliation.Process.Filing.{IsKept}
use bering.Reconciliation.Process.Soundness.{IsSound, process-IsSound}
use bering.Reconciliation.Process.Versioning.{Versioned, process-Versioned}
use bering.Tests.Samples.{external, observation, empty_state}

abbrev cfg : Config
unfolding default_config
cfg = default_config thousandths

projected-HasIntegrity_example :
    HasIntegrity (projected external thousandths empty_state observation (λ s. true)).model
projected-HasIntegrity_example =
    projected-HasIntegrity thousandths external empty_state observation (λ s. true) (refl, tt)

-- A window of a minute, and a reconciler that has seen three.
abbrev minute : Observation
minute = record observation { window_end = unix_epoch + 60 * second }

abbrev reconciler : Reconciler
reconciler = record { cfg = cfg; state = empty_state; load_warnings = [] }

-- The services of the stable core that a window publishes.
abbrev core_size : Result ProcessError Types.Result → ℕ
core_size (err e) = 0
core_size (ok res) = length res.stable_core.model.services

minute_is_counted :
    let after = process thousandths external (λ path state. true) reconciler minute in
    (core_size after.0 ≡ 1) × (after.1.state.versions.observation_version ≡ pos 4)
unfolding process build_raw_projection validate_semantic trim_space contains
    validate_service_metadata build_projection cfg bump_projection_version compact_if_due sub add
    sort_deterministic sort select_services build_observation_index lookup put in_stable_core
    advance_lifecycle has observe_entity clamp01 ensure_entity_state
minute_is_counted = (refl, refl)

process-IsSound_example :
    let after = process thousandths external (λ path state. true) reconciler minute in
    IsSound after.0 × All IsKept after.1.state.services
process-IsSound_example =
    process-IsSound thousandths external (λ path state. true) reconciler minute ((refl, refl), tt)

process-Versioned_example :
    Versioned reconciler (process thousandths external (λ path state. true) reconciler minute)
process-Versioned_example =
    process-Versioned thousandths external (λ path state. true) reconciler minute
