-- ===== src/Reconciliation/Compaction/References.antt =====
-- engine.go: the references to retired entities, and what a deletion leaves of them.
use bering.Prelude.{
  ℕ, suc, ◌-◌, ◌≤◌, All, All-imp, ◌≡◌, refl, sym, ap, ◌∙◌, Bool, true, false, not, ◌&&◌, ◌||◌, List,
  [], ◌∷◌, ◌++◌, keep, length, take, drop, take-append-drop, length-drop, keep-append, arith, ◌==◌,
  eq_refl, length-keep,
}
use bering.Go.Time.{Rfc3339}
use bering.Reconciliation.Types.{Kind, service, edge, endpoint, PersistedState}
use bering.Reconciliation.Compaction.{
  RetiredEntry, RetiredRef, retired_entries, delete_ref, delete_refs, refs_of, all_refs,
}
use bering.Reconciliation.Compaction.Deletion.{retired_entries-delete}

abbrev same_kind : Kind → Kind → Bool
same_kind service service = true
same_kind edge edge = true
same_kind endpoint endpoint = true
same_kind _ _ = false

same_ref : RetiredRef → RetiredRef → Bool
same_ref a b = same_kind a.bucket b.bucket && a.entry.id == b.entry.id

pub has_ref : List RetiredRef → RetiredRef → Bool
has_ref [] e = false
has_ref (r ∷ rs) e = same_ref r e || has_ref rs e

abbrev pub outside : List RetiredRef → RetiredRef → Bool
outside rs e = not (has_ref rs e)

same_ref_refl : (r : RetiredRef) → same_ref r r ≡ true
unfolding same_ref
same_ref_refl r = ground (arith, eq_refl r.entry.id)

keep-refs_of-same :
    (k : Kind) (r : RetiredRef) (es : List RetiredEntry)
    → same_kind r.bucket k ≡ true
    → keep (λ e. not (same_ref r e)) (refs_of k es)
      ≡ refs_of k (keep (λ e. not (r.entry.id == e.id)) es)
unfolding keep refs_of same_ref
keep-refs_of-same k r [] h = refl
keep-refs_of-same k r (e ∷ es) h = ground (arith, keep-refs_of-same k r es h)

keep-refs_of-other :
    (k : Kind) (r : RetiredRef) (es : List RetiredEntry)
    → same_kind r.bucket k ≡ false
    → keep (λ e. not (same_ref r e)) (refs_of k es) ≡ refs_of k es
unfolding keep refs_of same_ref
keep-refs_of-other k r [] h = refl
keep-refs_of-other k r (e ∷ es) h = ground (arith, keep-refs_of-other k r es h)

module _ (clock : Rfc3339) where
  keep-all_refs :
      (r : RetiredRef) (state : PersistedState)
      → keep (λ e. not (same_ref r e)) (all_refs clock state)
        ≡ keep (λ e. not (same_ref r e)) (refs_of service (retired_entries clock state.services))
          ++ (keep (λ e. not (same_ref r e)) (refs_of edge (retired_entries clock state.edges))
              ++ keep
                  (λ e. not (same_ref r e))
                  (refs_of endpoint (retired_entries clock state.endpoints)))
  unfolding all_refs
  keep-all_refs r state = rw (keep-append, keep-append)

  all_refs-delete_ref :
      (k : Kind) (e : RetiredEntry) (state : PersistedState)
      → all_refs clock (delete_ref k e.id state)
        ≡ keep (λ x. not (same_ref (record { bucket = k; entry = e }) x)) (all_refs clock state)
  unfolding all_refs delete_ref
  all_refs-delete_ref service e state =
      let r : RetiredRef = record { bucket = service; entry = e } in
      cc (
        retired_entries-delete clock e.id state.services,
        keep-all_refs r state,
        keep-refs_of-same service r (retired_entries clock state.services) refl,
        keep-refs_of-other edge r (retired_entries clock state.edges) refl,
        keep-refs_of-other endpoint r (retired_entries clock state.endpoints) refl,
      )
  all_refs-delete_ref edge e state =
      let r : RetiredRef = record { bucket = edge; entry = e } in
      cc (
        retired_entries-delete clock e.id state.edges,
        keep-all_refs r state,
        keep-refs_of-other service r (retired_entries clock state.services) refl,
        keep-refs_of-same edge r (retired_entries clock state.edges) refl,
        keep-refs_of-other endpoint r (retired_entries clock state.endpoints) refl,
      )
  all_refs-delete_ref endpoint e state =
      let r : RetiredRef = record { bucket = endpoint; entry = e } in
      cc (
        retired_entries-delete clock e.id state.endpoints,
        keep-all_refs r state,
        keep-refs_of-other service r (retired_entries clock state.services) refl,
        keep-refs_of-other edge r (retired_entries clock state.edges) refl,
        keep-refs_of-same endpoint r (retired_entries clock state.endpoints) refl,
      )

  keep-outside-cons :
      (r : RetiredRef) (rs es : List RetiredRef)
      → keep (outside rs) (keep (λ e. not (same_ref r e)) es) ≡ keep (outside (r ∷ rs)) es
  unfolding keep has_ref
  keep-outside-cons r rs [] = refl
  keep-outside-cons r rs (e ∷ es) = ground (arith, keep-outside-cons r rs es)

  keep-outside-nil : (es : List RetiredRef) → keep (outside []) es ≡ es
  unfolding keep has_ref
  keep-outside-nil [] = refl
  keep-outside-nil (e ∷ es) = ground (arith, keep-outside-nil es)

  pub all_refs-delete_refs :
      (rs : List RetiredRef) (state : PersistedState)
      → all_refs clock (delete_refs rs state) ≡ keep (outside rs) (all_refs clock state)
  unfolding delete_refs
  all_refs-delete_refs [] state = sym (keep-outside-nil (all_refs clock state))
  all_refs-delete_refs (r ∷ rs) state =
      all_refs-delete_refs rs (delete_ref r.bucket r.entry.id state)
      ∙ (ap (keep (outside rs)) (all_refs-delete_ref r.bucket r.entry state)
          ∙ keep-outside-cons r rs (all_refs clock state))

ref_of-has : (es : List RetiredRef) → All (λ e. has_ref es e ≡ true) es
unfolding has_ref
ref_of-has [] = tt
ref_of-has (x ∷ es) = (
  rw same_ref_refl,
  All-imp (λ e. has_ref es e ≡ true) _ es (λ e h. ground (arith, h)) (ref_of-has es),
)

keep-outside-eq_nil :
    (rs es : List RetiredRef) → All (λ e. has_ref rs e ≡ true) es → keep (outside rs) es ≡ []
unfolding keep
keep-outside-eq_nil rs [] h = refl
keep-outside-eq_nil rs (e ∷ es) h = ground (arith, keep-outside-eq_nil rs es h.1)

pub length-keep-outside-take :
    (n : ℕ) (es : List RetiredRef) → length (keep (outside (take n es)) es) ≤ length es - n
length-keep-outside-take n es =
    let rs = take n es in
    let split : keep (outside rs) es ≡ keep (outside rs) (drop n es) =
      ap (keep (outside rs)) (sym (take-append-drop n es))
      ∙ (keep-append (outside rs) (take n es) (drop n es)
          ∙ ap (λ (l : List RetiredRef). l ++ keep (outside rs) (drop n es))
              (keep-outside-eq_nil rs (take n es) (ref_of-has (take n es)))) in
    rw split (omega (arith, length-keep (outside rs) (drop n es), length-drop n es))

pub length-refs_of : (k : Kind) (es : List RetiredEntry) → length (refs_of k es) ≡ length es
unfolding refs_of
length-refs_of k [] = refl
length-refs_of k (e ∷ es) = ap suc (length-refs_of k es)
