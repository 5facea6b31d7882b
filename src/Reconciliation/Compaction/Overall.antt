-- ===== src/Reconciliation/Compaction/Overall.antt =====
-- engine.go, io.go: the limit on all retired entities together.
use bering.Prelude.{
  ℕ, ◌+◌, ◌-◌, ◌≤◌, ◌<◌, ◌≡◌, refl, false, Bool-cases, inl, inr, ◌++◌, length, take, arith,
  length-append,
}
use bering.Go.Int
use bering.Go.Int.{ℤ, pos, negsuc, pos_part, max_int}
use bering.Go.Sort.{sort, length-sort}
use bering.Go.Time.{Rfc3339}
use bering.Reconciliation.Types.{service, edge, endpoint, PersistedState}
use bering.Reconciliation.Config.{Config}
use bering.Reconciliation.Compaction.{
  retired_entries, ref_before, delete_refs, refs_of, all_refs, total_retired, overall_count,
  trim_retired_overall, trim_overall,
}
use bering.Reconciliation.Compaction.Limits.{length-keep-sort}
use bering.Reconciliation.Compaction.References.{
  outside, all_refs-delete_refs, length-keep-outside-take, length-refs_of,
}

module _ (clock : Rfc3339) where
  total_retired-eq-length :
      (state : PersistedState) → total_retired clock state ≡ length (all_refs clock state)
  unfolding total_retired all_refs
  total_retired-eq-length state =
      let s = retired_entries clock state.services in
      let e = retired_entries clock state.edges in
      let p = retired_entries clock state.endpoints in
      omega (
        arith,
        length-append (refs_of service s) (refs_of edge e ++ refs_of endpoint p),
        length-append (refs_of edge e) (refs_of endpoint p),
        length-refs_of service s,
        length-refs_of edge e,
        length-refs_of endpoint p,
      )

  overall_count_lem :
      (state : PersistedState) (n : ℕ)
      → 0 < n
      → n ≤ length (all_refs clock state)
      → overall_count clock state (pos n) ≡ n
  unfolding overall_count
  overall_count_lem state n h k = ground arith

  length-delete_oldest :
      (state : PersistedState) (n : ℕ)
      → length
          (all_refs clock (delete_refs (take n (sort ref_before (all_refs clock state))) state))
        ≤ length (all_refs clock state) - n
  length-delete_oldest state n =
      let sorted = sort ref_before (all_refs clock state) in
      rw (all_refs-delete_refs clock (take n sorted) state) (
        omega (
          arith,
          length-keep-sort ref_before (outside (take n sorted)) (all_refs clock state),
          length-keep-outside-take n sorted,
          length-sort ref_before (all_refs clock state),
        ))

  delete_oldest-bounds :
      (state : PersistedState) (n limit : ℕ)
      → total_retired clock state ≤ limit + n
      → total_retired clock (delete_refs (take n (sort ref_before (all_refs clock state))) state)
        ≤ limit
  delete_oldest-bounds state n limit h =
      let state' = delete_refs (take n (sort ref_before (all_refs clock state))) state in
      omega (
        arith,
        total_retired-eq-length state,
        total_retired-eq-length state',
        length-delete_oldest state n,
      )

  -- The trim by the excess over a limit below the total.
  trim_excess :
      (state : PersistedState) (limit : ℕ)
      → limit < total_retired clock state
      → total_retired clock state ≤ max_int
      → total_retired clock
          (trim_retired_overall clock state (Int.sub (pos (total_retired clock state)) (pos limit)))
        ≤ limit
  unfolding trim_retired_overall
  trim_excess state limit h fits =
      let t = total_retired clock state in
      let same = total_retired-eq-length state in
      rw
        (
          Int.sub-pos t limit (omega arith) fits,
          overall_count_lem state (t - limit) (omega arith) (omega arith),
        )
        (delete_oldest-bounds state (t - limit) limit (omega arith))

  trim_to :
      (cfg : Config) (state : PersistedState) (limit : ℤ)
      → cfg.max_retired_overall ≡ limit
      → Int.le limit (pos 0) ≡ false
      → total_retired clock state ≤ max_int
      → total_retired clock (trim_overall clock cfg state) ≤ pos_part limit
  unfolding trim_overall
  trim_to cfg state (negsuc n) e h fits = absurd (ground arith)
  trim_to cfg state (pos limit) e h fits =
      rw e (elim (Bool-cases (Int.lt (pos limit) (pos (total_retired clock state)))) [
        | inl over ↦ rw over (trim_excess state limit (ground arith) fits)
        | inr within ↦ rw within (ground arith)
      ])

  -- After the trim over all kinds at most `MaxRetiredOverall` retired entities are left.
  pub trim_overall-bounds_retired :
      (cfg : Config) (state : PersistedState)
      → Int.le cfg.max_retired_overall (pos 0) ≡ false
      → total_retired clock state ≤ max_int
      → total_retired clock (trim_overall clock cfg state) ≤ pos_part cfg.max_retired_overall
  trim_overall-bounds_retired cfg state h fits =
      trim_to cfg state cfg.max_retired_overall refl h fits
