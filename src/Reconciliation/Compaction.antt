-- ===== src/Reconciliation/Compaction.antt =====
-- internal/reconciliation: `compactIfDue` and `compact` of engine.go; `retiredEntries`,
-- `trimRetiredBucket` and `trimRetiredOverall` of io.go.
pub mod Deletion
pub mod Limits
pub mod References
pub mod Overall
pub mod Bounds
pub mod Survivors
use bering.Prelude.{
  ℕ, suc, ◌+◌, ◌-◌, String, Bool, true, false, ◌&&◌, not, Option, none, some, List, [], ◌∷◌, ◌++◌,
  map, length, take, ◌==◌, if◌then◌else◌,
}
use bering.Go.Int
use bering.Go.Int.{ℤ, pos, pos_part}
use bering.Go.Time.{Time, Rfc3339, before, since, unix_epoch}
use bering.Go.Map.{Map, delete}
use bering.Go.Sort.{sort}
use bering.Reconciliation.Types.{
  Kind, service, edge, endpoint, retired, same_lifecycle, EntityState, PersistedState,
  CompactionSummary,
}
use bering.Reconciliation.Config.{Config}

-- `state.Lifecycle != LifecycleRetired || state.RetiredAt == ""`, negated
unfoldable pub is_retired : EntityState → Bool
is_retired s = same_lifecycle s.lifecycle retired && not (s.retired_at == "")

pub record RetiredEntry : Type 0 where
  pub id : String
  pub retired_at : Time

or_epoch : Option Time → Time
or_epoch none = unix_epoch
or_epoch (some t) = t

unfoldable pub retired_before : RetiredEntry → RetiredEntry → Bool
retired_before a b = before a.retired_at b.retired_at

unfoldable pub delete_all : List String → Map EntityState → Map EntityState
delete_all [] bucket = bucket
delete_all (id ∷ rest) bucket = delete_all rest (delete id bucket)

-- A retired entity, and the bucket that holds it.
pub record RetiredRef : Type 0 where
  pub bucket : Kind
  pub entry : RetiredEntry

unfoldable pub refs_of : Kind → List RetiredEntry → List RetiredRef
refs_of kind entries = map (λ e. record { bucket = kind; entry = e }) entries

unfoldable pub ref_before : RetiredRef → RetiredRef → Bool
ref_before a b = before a.entry.retired_at b.entry.retired_at

unfoldable pub delete_ref : Kind → String → PersistedState → PersistedState
delete_ref service id state = record state { services = delete id state.services }
delete_ref edge id state = record state { edges = delete id state.edges }
delete_ref endpoint id state = record state { endpoints = delete id state.endpoints }

unfoldable pub delete_refs : List RetiredRef → PersistedState → PersistedState
unfolding delete_ref
delete_refs [] state = state
delete_refs (r ∷ rest) state = delete_refs rest (delete_ref r.bucket r.entry.id state)

module _ (clock : Rfc3339) where
  unfoldable pub retired_entries : Map EntityState → List RetiredEntry
  unfolding or_epoch is_retired
  retired_entries [] = []
  retired_entries ((id, s) ∷ bucket) =
      let rest = retired_entries bucket in
      if is_retired s
      then record { id = id; retired_at = or_epoch (clock.parse s.retired_at) } ∷ rest
      else rest

  unfoldable pub retired_count : Map EntityState → ℕ
  unfolding retired_entries
  retired_count bucket = length (retired_entries bucket)

  -- The number of entries that `trimRetiredBucket` deletes.
  unfoldable pub trim_count : Map EntityState → ℤ → ℕ
  unfolding retired_count
  trim_count bucket max_retired =
      if Int.le max_retired (pos 0)
      then 0
      else if Int.le (pos (retired_count bucket)) max_retired
      then 0
      else retired_count bucket - pos_part max_retired

  unfoldable pub trim_retired_bucket : Map EntityState → ℤ → Map EntityState
  unfolding trim_count delete_all
  trim_retired_bucket bucket max_retired =
      delete_all
        (map (λ e. e.id)
          (take (trim_count bucket max_retired) (sort retired_before (retired_entries bucket))))
        bucket

  unfoldable pub all_refs : PersistedState → List RetiredRef
  unfolding refs_of
  all_refs state =
      refs_of service (retired_entries state.services)
      ++ (refs_of edge (retired_entries state.edges)
          ++ refs_of endpoint (retired_entries state.endpoints))

  unfoldable pub total_retired : PersistedState → ℕ
  unfolding retired_count
  total_retired state =
      retired_count state.services + retired_count state.edges + retired_count state.endpoints

  -- The number of entries that `trimRetiredOverall` deletes.
  unfoldable pub overall_count : PersistedState → ℤ → ℕ
  unfolding all_refs
  overall_count state trim =
      if Int.le trim (pos 0)
      then 0
      else if Int.lt (pos (length (all_refs state))) trim
      then length (all_refs state)
      else pos_part trim

  unfoldable pub trim_retired_overall : PersistedState → ℤ → PersistedState
  unfolding overall_count all_refs delete_refs
  trim_retired_overall state trim =
      delete_refs (take (overall_count state trim) (sort ref_before (all_refs state))) state

  module _ (cfg : Config) where
    past_ttl : Time → Option Time → Bool
    past_ttl now none = true
    past_ttl now (some retired_at) = Int.lt cfg.retired_ttl (since now retired_at)

    unfoldable pub is_expired : Time → EntityState → Bool
    unfolding past_ttl is_retired
    is_expired now s = is_retired s && past_ttl now (clock.parse s.retired_at)

    unfoldable pub expire : Time → Map EntityState → Map EntityState
    unfolding is_expired
    expire now [] = []
    expire now ((id, s) ∷ bucket) =
        let rest = expire now bucket in if is_expired now s then rest else (id, s) ∷ rest

    expired_count : Time → Map EntityState → ℕ
    expired_count now [] = 0
    expired_count now ((id, s) ∷ bucket) =
        let rest = expired_count now bucket in if is_expired now s then suc rest else rest

    unfoldable pub expire_all : Time → PersistedState → PersistedState
    unfolding expire
    expire_all now state = record state {
      services = expire now state.services;
      edges = expire now state.edges;
      endpoints = expire now state.endpoints;
    }

    unfoldable pub trim_all : PersistedState → PersistedState
    unfolding trim_retired_bucket
    trim_all state = record state {
      services = trim_retired_bucket state.services cfg.max_retired_per_kind;
      edges = trim_retired_bucket state.edges cfg.max_retired_per_kind;
      endpoints = trim_retired_bucket state.endpoints cfg.max_retired_per_kind;
    }

    unfoldable pub overall_excess : PersistedState → ℤ
    overall_excess state = Int.sub (pos (total_retired state)) cfg.max_retired_overall

    unfoldable pub trim_overall : PersistedState → PersistedState
    unfolding overall_excess trim_retired_overall
    trim_overall state =
        if Int.lt cfg.max_retired_overall (pos (total_retired state))
        then trim_retired_overall state (overall_excess state)
        else state

    unfoldable pub compact : Time → PersistedState → PersistedState × CompactionSummary
    unfolding expire_all trim_all trim_overall overall_excess expired_count trim_count overall_count
    compact now state =
        let expired = expire_all now state in
        let trimmed = trim_all expired in
        (
          trim_overall trimmed,
          record {
            performed = false;
            expired_retired = pos (
                expired_count now state.services
                + expired_count now state.edges
                + expired_count now state.endpoints);
            trimmed_per_kind = pos (
                trim_count expired.services cfg.max_retired_per_kind
                + trim_count expired.edges cfg.max_retired_per_kind
                + trim_count expired.endpoints cfg.max_retired_per_kind);
            trimmed_overall =
                if Int.lt cfg.max_retired_overall (pos (total_retired trimmed))
                then pos (overall_count trimmed (overall_excess trimmed))
                else pos 0;
          },
        )

    unfoldable pub compact_if_due : Time → PersistedState → PersistedState × CompactionSummary
    unfolding compact
    compact_if_due now state =
        if Int.lt (Int.sub state.versions.observation_version state.last_compaction_version)
          cfg.compaction_cadence
        then (
          state,
          record {
            performed = false;
            expired_retired = pos 0;
            trimmed_per_kind = pos 0;
            trimmed_overall = pos 0;
          },
        )
        else (let (state', summary) = compact now state in
            (
              record state' { last_compaction_version = state.versions.observation_version },
              record summary { performed = true },
            ))
