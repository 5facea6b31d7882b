-- ===== src/Reconciliation/Lifecycle/Observe.antt =====
-- engine.go: `ensureEntityState`, `observeEntity`, `snapshotSupportStrength` and
-- `snapshotSourceStrength`; types.go: `sourceStrengthFromProvenance`.
use bering.Prelude.{String, Option, none, some, List, [], ◌∷◌, ◌==◌, if◌then◌else◌}
use bering.Go.Int
use bering.Go.Int.{ℤ, pos}
use bering.Go.Float
use bering.Go.Float.{Float, FloatOps}
use bering.Go.Time.{Time, Rfc3339}
use bering.Go.Text.{trim_space, to_lower}
use bering.Go.Map.{Map, lookup}
use bering.Snapshot.Types.{Provenance, SupportSummary}
use bering.Reconciliation.Types.{
  Kind, service, edge, endpoint, candidate, active, EntitySnapshot, EntityState,
}
use bering.Reconciliation.Config.{Config}
use bering.Reconciliation.Numbers.{clamp01, clamp_gap_ema, max_float}

module _ (fl : FloatOps) where
  -- The state that `ensureEntityState` puts into the bucket for a new entity.
  unfoldable pub new_entity_state : Kind → String → EntityState
  new_entity_state kind id = record {
    kind = kind;
    id = id;
    lifecycle = candidate;
    existence_confidence = fl.decimal 25 2;
    activity_confidence = fl.decimal 2 1;
    observed_windows = pos 0;
    opportunity_windows = pos 0;
    miss_streak = pos 0;
    last_seen_window = pos 0;
    last_opportunity = pos 0;
    gap_ema = fl.decimal 1 0;
    source_strength = fl.decimal 0 0;
    retired_at = "";
    updated_at = "";
    reason = "";
    service = none;
    edge = none;
    endpoint = none;
    service_record = none;
    edge_record = none;
    endpoint_record = none;
  }

  or_new : Option EntityState → Kind → String → EntityState
  or_new (some item) kind id = item
  or_new none kind id = new_entity_state kind id

  unfoldable pub ensure_entity_state : Map EntityState → Kind → String → EntityState
  unfolding or_new new_entity_state
  ensure_entity_state bucket kind id = or_new (lookup id bucket) kind id

  provenance_score : String → Float
  provenance_score type =
      if type == "overlay"
      then fl.decimal 1 0
      else if type == "topology_api"
      then fl.decimal 95 2
      else if type == "traces"
      then fl.decimal 35 2
      else fl.decimal 5 1

  provenance_loop : Float → List Provenance → Float
  provenance_loop score [] = score
  provenance_loop score (item ∷ rest) =
      provenance_loop (fl.max score (provenance_score (trim_space (to_lower item.type)))) rest

  unfoldable pub source_strength_from_provenance : List Provenance → Float
  unfolding provenance_loop provenance_score
  source_strength_from_provenance items = provenance_loop (fl.decimal 2 1) items

  support_strength : Option SupportSummary → Float
  support_strength none = fl.decimal 5 1
  support_strength (some support) =
      clamp01 fl (fl.div (fl.of_int support.observations) (fl.decimal 10 0))

  abbrev record_support : EntitySnapshot → Kind → Option SupportSummary
  record_support item service = elim item.service_record [ none ↦ none | some r ↦ some r.support ]
  record_support item edge = elim item.edge_record [ none ↦ none | some r ↦ some r.support ]
  record_support item endpoint = elim item.endpoint_record [ none ↦ none | some r ↦ some r.support ]

  abbrev record_provenance : EntitySnapshot → Kind → Option (List Provenance)
  record_provenance item service = elim item.service_record [
    | none ↦ none
    | some r ↦ some r.provenance
  ]
  record_provenance item edge = elim item.edge_record [ none ↦ none | some r ↦ some r.provenance ]
  record_provenance item endpoint = elim item.endpoint_record [
    | none ↦ none
    | some r ↦ some r.provenance
  ]

  unfoldable pub snapshot_support_strength : EntitySnapshot → Float
  unfolding support_strength
  snapshot_support_strength item = support_strength (record_support item item.kind)

  source_strength : Option (List Provenance) → Float
  source_strength none = fl.decimal 35 2
  source_strength (some items) = source_strength_from_provenance items

  unfoldable pub snapshot_source_strength : EntitySnapshot → Float
  unfolding source_strength source_strength_from_provenance
  snapshot_source_strength item = source_strength (record_provenance item item.kind)

  module _ (cfg : Config) (clock : Rfc3339) where
    observed_gap_ema : EntityState → ℤ → Float
    observed_gap_ema state version =
        if Int.lt (pos 0) state.last_seen_window
        then clamp_gap_ema fl (
            fl.add (fl.mul state.gap_ema (fl.sub (fl.decimal 1 0) cfg.gap_ema_alpha))
              (fl.mul (fl.of_int (Int.sub version state.last_seen_window)) cfg.gap_ema_alpha))
        else fl.decimal 1 0

    observed_existence : EntityState → EntitySnapshot → Float
    observed_existence state snapshot = clamp01 fl (
        fl.add state.existence_confidence (
          fl.mul cfg.positive_existence_boost (
            fl.add (fl.decimal 4 1)
              (fl.mul (fl.decimal 6 1) (snapshot_support_strength snapshot)))))

    -- The switch on the snapshot's kind: its value and its record are copied.
    unfoldable pub copy_payload : EntitySnapshot → Kind → EntityState → EntityState
    copy_payload snapshot service state = record state {
      service = snapshot.service;
      service_record = snapshot.service_record;
    }
    copy_payload snapshot edge state = record state {
      edge = snapshot.edge;
      edge_record = snapshot.edge_record;
    }
    copy_payload snapshot endpoint state = record state {
      endpoint = snapshot.endpoint;
      endpoint_record = snapshot.endpoint_record;
    }

    unfoldable pub observe_entity : EntityState → EntitySnapshot → ℤ → Time → EntityState
    unfolding observed_gap_ema observed_existence copy_payload snapshot_support_strength
        snapshot_source_strength
    observe_entity state snapshot version observed_at =
        let existence = observed_existence state snapshot in
        copy_payload snapshot snapshot.kind (record state {
          last_seen_window = version;
          observed_windows = Int.add state.observed_windows (pos 1);
          miss_streak = pos 0;
          existence_confidence = existence;
          activity_confidence =
              clamp01 fl (fl.add state.activity_confidence cfg.positive_activity_boost);
          source_strength =
              clamp01 fl (max_float fl state.source_strength (snapshot_source_strength snapshot));
          gap_ema = observed_gap_ema state version;
          updated_at = clock.format observed_at;
          retired_at = "";
          reason = "observed in current window";
          lifecycle =
              if Float.le fl cfg.stable_core_existence_threshold existence
              then active
              else candidate;
        })
