-- ===== src/Reconciliation/Compaction/Survivors.antt =====
-- engine.go: `compactIfDue` and what it does not touch: the services that are left, the versions
-- and the published hashes.
use bering.Prelude.{String, ◌≡◌, refl, ◌∙◌, List, [], ◌∷◌, All, take, map, Bool-cases, inl, inr}
use bering.Go.Int
use bering.Go.Int.{ℤ, pos}
use bering.Go.Map.{Map, delete, All-delete}
use bering.Go.Sort.{sort}
use bering.Go.Time.{Time, Rfc3339}
use bering.Reconciliation.Types.{
  Kind, service, edge, endpoint, EntityState, PersistedState, Versions,
}
use bering.Reconciliation.Config.{Config}
use bering.Reconciliation.Compaction.{
  RetiredRef, is_expired, expire, expire_all, delete_all, delete_ref, delete_refs,
  trim_retired_bucket, trim_all, trim_overall, trim_retired_overall, total_retired, overall_excess,
  overall_count, all_refs, ref_before, trim_count, retired_before, retired_entries, compact,
  compact_if_due,
}

module _ {ℓ} (P : String × EntityState → Type ℓ) where
  All-delete_all : (ids : List String) (m : Map EntityState) → All P m → All P (delete_all ids m)
  unfolding delete_all
  All-delete_all [] m h = h
  All-delete_all (id ∷ ids) m h = All-delete_all ids (delete id m) (All-delete P id m h)

  All-delete_ref :
      (k : Kind) (id : String) (state : PersistedState)
      → All P state.services
      → All P (delete_ref k id state).services
  unfolding delete_ref
  All-delete_ref service id state h = All-delete P id state.services h
  All-delete_ref edge id state h = h
  All-delete_ref endpoint id state h = h

  All-delete_refs :
      (rs : List RetiredRef) (state : PersistedState)
      → All P state.services
      → All P (delete_refs rs state).services
  unfolding delete_refs
  All-delete_refs [] state h = h
  All-delete_refs (r ∷ rs) state h =
      All-delete_refs rs (delete_ref r.bucket r.entry.id state)
        (All-delete_ref r.bucket r.entry.id state h)

  module _ (clock : Rfc3339) (cfg : Config) (now : Time) where
    All-expire : (m : Map EntityState) → All P m → All P (expire clock cfg now m)
    unfolding expire
    All-expire [] h = tt
    All-expire ((id, s) ∷ m) h = elim (Bool-cases (is_expired clock cfg now s)) [
      | inl gone ↦ rw gone (All-expire m h.1)
      | inr kept ↦ rw kept (h.0, All-expire m h.1)
    ]

    All-trim_overall :
        (state : PersistedState)
        → All P state.services
        → All P (trim_overall clock cfg state).services
    unfolding trim_overall trim_retired_overall
    All-trim_overall state h =
        elim (Bool-cases (Int.lt cfg.max_retired_overall (pos (total_retired clock state)))) [
          | inl over ↦ rw over (
              All-delete_refs
                (take (overall_count clock state (overall_excess clock cfg state))
                  (sort ref_before (all_refs clock state)))
                state h)
          | inr within ↦ rw within h
        ]

    All-trim_retired_bucket :
        (m : Map EntityState) (limit : ℤ) → All P m → All P (trim_retired_bucket clock m limit)
    unfolding trim_retired_bucket
    All-trim_retired_bucket m limit h =
        All-delete_all
          (map (λ e. e.id)
            (take (trim_count clock m limit) (sort retired_before (retired_entries clock m))))
          m h

    All-compact :
        (state : PersistedState)
        → All P state.services
        → All P (compact clock cfg now state).0.services
    unfolding compact expire_all trim_all
    All-compact state h = All-trim_overall (trim_all clock cfg (expire_all clock cfg now state)) (
        All-trim_retired_bucket (expire clock cfg now state.services) cfg.max_retired_per_kind
          (All-expire state.services h))

    pub All-compact_if_due :
        (state : PersistedState)
        → All P state.services
        → All P (compact_if_due clock cfg now state).0.services
    unfolding compact_if_due
    All-compact_if_due state h =
        elim (Bool-cases (
          Int.lt (Int.sub state.versions.observation_version state.last_compaction_version)
            cfg.compaction_cadence)) [
              | inl early ↦ rw early h
              | inr due ↦ rw due (All-compact state h)
            ]

-- The parts of the state that number and identify what was published.
abbrev pub header : PersistedState → Versions × String × String
header state =
    (state.versions, state.stable_core_topology_hash, state.guardrail_union_topology_hash)

header-delete_ref :
    (k : Kind) (id : String) (state : PersistedState)
    → header (delete_ref k id state) ≡ header state
unfolding delete_ref
header-delete_ref service id state = refl
header-delete_ref edge id state = refl
header-delete_ref endpoint id state = refl

header-delete_refs :
    (rs : List RetiredRef) (state : PersistedState) → header (delete_refs rs state) ≡ header state
unfolding delete_refs
header-delete_refs [] state = refl
header-delete_refs (r ∷ rs) state =
    header-delete_refs rs (delete_ref r.bucket r.entry.id state)
    ∙ header-delete_ref r.bucket r.entry.id state

module _ (clock : Rfc3339) (cfg : Config) (now : Time) where
  header-trim_overall :
      (state : PersistedState) → header (trim_overall clock cfg state) ≡ header state
  unfolding trim_overall trim_retired_overall
  header-trim_overall state =
      elim (Bool-cases (Int.lt cfg.max_retired_overall (pos (total_retired clock state)))) [
        | inl over ↦ rw over (
            header-delete_refs
              (take (overall_count clock state (overall_excess clock cfg state))
                (sort ref_before (all_refs clock state)))
              state)
        | inr within ↦ rw within refl
      ]

  pub header-compact_if_due :
      (state : PersistedState) → header ((compact_if_due clock cfg now state).0) ≡ header state
  unfolding compact_if_due compact expire_all trim_all
  header-compact_if_due state =
      elim (Bool-cases (
        Int.lt (Int.sub state.versions.observation_version state.last_compaction_version)
          cfg.compaction_cadence)) [
            | inl early ↦ rw early refl
            | inr due ↦
                rw due (header-trim_overall (trim_all clock cfg (expire_all clock cfg now state)))
          ]
