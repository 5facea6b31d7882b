-- ===== src/Reconciliation/Lifecycle/Sighting.antt =====
-- engine.go: what a sighting makes of an entity.
use bering.Prelude.{◌≡◌, ◌≢◌, ◌↔◌, true, arith}
use bering.Go.Int
use bering.Go.Int.{ℤ, pos}
use bering.Go.Float
use bering.Go.Float.{FloatOps}
use bering.Go.Time.{Time, Rfc3339}
use bering.Reconciliation.Types.{
  Kind, service, edge, endpoint, active, stale, retired, EntityState, EntitySnapshot,
}
use bering.Reconciliation.Config.{Config}
use bering.Reconciliation.Lifecycle.Observe.{observe_entity}

-- The payload of a kind: the state holds what the snapshot shows.
abbrev pub HoldsPayload : Kind → EntitySnapshot → EntityState → Type 0
HoldsPayload service snap s = (s.service ≡ snap.service) × (s.service_record ≡ snap.service_record)
HoldsPayload edge snap s = (s.edge ≡ snap.edge) × (s.edge_record ≡ snap.edge_record)
HoldsPayload endpoint snap s =
    (s.endpoint ≡ snap.endpoint) × (s.endpoint_record ≡ snap.endpoint_record)

pub record IsSighted (fl : FloatOps) (cfg : Config) (version : ℤ) (snap : EntitySnapshot)
    (s : EntityState) (s' : EntityState) : Type 0 where
  pub identity : (s'.id ≡ s.id) × (s'.kind ≡ s.kind)
  pub last_seen : s'.last_seen_window ≡ version
  pub no_misses : s'.miss_streak ≡ pos 0
  pub counted : s'.observed_windows ≡ Int.add s.observed_windows (pos 1)
  pub not_retired_at : s'.retired_at ≡ ""
  pub active_iff :
      (s'.lifecycle ≡ active)
      ↔ (Float.le fl cfg.stable_core_existence_threshold s'.existence_confidence ≡ true)
  pub not_stale : s'.lifecycle ≢ stale
  pub not_retired : s'.lifecycle ≢ retired
  pub payload : HoldsPayload snap.kind snap s'

module _ (fl : FloatOps) (cfg : Config) (clock : Rfc3339) where
  -- A sighting keeps the entity's name, clears its misses and its retirement, and makes it active
  -- exactly when its new existence confidence reaches the threshold of the stable core; it never
  -- leaves it stale or retired, counts the window, and copies what the snapshot shows.
  pub observe_entity-IsSighted :
      (s : EntityState) (snap : EntitySnapshot) (version : ℤ) (now : Time)
      → IsSighted fl cfg version snap s (observe_entity fl cfg clock s snap version now)
  unfolding observe_entity
  observe_entity-IsSighted s snap version now = record {
    identity = ground arith;
    last_seen = ground arith;
    no_misses = ground arith;
    counted = ground arith;
    not_retired_at = ground arith;
    active_iff = ground arith;
    not_stale = ground arith;
    not_retired = ground arith;
    payload = ground arith;
  }
