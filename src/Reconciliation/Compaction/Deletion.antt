-- ===== src/Reconciliation/Compaction/Deletion.antt =====
-- io.go: what deleting entries does to the retired entries of a bucket.
use bering.Prelude.{String, ◌≡◌, refl, sym, Bool, not, List, [], ◌∷◌, keep, arith, ◌==◌, eq_iff}
use bering.Go.Map.{Map, delete, contains}
use bering.Go.Time.{Rfc3339}
use bering.Reconciliation.Types.{EntityState}
use bering.Reconciliation.Compaction.{RetiredEntry, retired_entries, delete_all}

-- The entries whose name is not in a list.
abbrev pub outside : List String → RetiredEntry → Bool
outside ids e = not (contains ids e.id)

module _ (clock : Rfc3339) where
  pub retired_entries-delete :
      (k : String) (m : Map EntityState)
      → retired_entries clock (delete k m) ≡ keep (λ e. not (k == e.id)) (retired_entries clock m)
  unfolding retired_entries delete keep
  retired_entries-delete k [] = refl
  retired_entries-delete k ((j, s) ∷ m) =
      ground (arith, retired_entries-delete k m, eq_iff j k, eq_iff k j)

  keep-outside-cons :
      (k : String) (ids : List String) (es : List RetiredEntry)
      → keep (outside ids) (keep (λ e. not (k == e.id)) es) ≡ keep (outside (k ∷ ids)) es
  unfolding keep contains
  keep-outside-cons k ids [] = refl
  keep-outside-cons k ids (e ∷ es) = ground (arith, keep-outside-cons k ids es)

  keep-outside-nil : (es : List RetiredEntry) → keep (outside []) es ≡ es
  unfolding keep contains
  keep-outside-nil [] = refl
  keep-outside-nil (e ∷ es) = ground (arith, keep-outside-nil es)

  pub retired_entries-delete_all :
      (ids : List String) (m : Map EntityState)
      → retired_entries clock (delete_all ids m) ≡ keep (outside ids) (retired_entries clock m)
  unfolding delete_all
  retired_entries-delete_all [] m = sym (keep-outside-nil (retired_entries clock m))
  retired_entries-delete_all (k ∷ ids) m =
      rw (retired_entries-delete_all ids (delete k m), retired_entries-delete k m)
        (keep-outside-cons k ids (retired_entries clock m))
