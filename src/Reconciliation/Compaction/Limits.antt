-- ===== src/Reconciliation/Compaction/Limits.antt =====
-- io.go: `trimRetiredBucket` and the limit of a bucket.
use bering.Prelude.{
  ℕ, ◌-◌, ◌≤◌, All, All-imp, String, ◌≡◌, refl, sym, ap, ◌∙◌, Bool, true, false, List, [], ◌∷◌,
  ◌++◌, map, keep, length, take, drop, take-append-drop, length-drop, keep-append, arith, eq_refl,
  length-keep,
}
use bering.Go.Int
use bering.Go.Int.{ℤ, pos, negsuc, pos_part}
use bering.Go.Map.{Map, contains}
use bering.Go.Sort.{sort, insert, length-sort}
use bering.Go.Time.{Rfc3339}
use bering.Reconciliation.Types.{EntityState}
use bering.Reconciliation.Compaction.{
  RetiredEntry, retired_entries, retired_count, retired_before, trim_count, delete_all,
  trim_retired_bucket,
}
use bering.Reconciliation.Compaction.Deletion.{outside, retired_entries-delete_all}

module _ {A : Type 0} (less : A → A → Bool) (p : A → Bool) where
  length-keep-insert :
      (x : A) (xs : List A) → length (keep p (insert less x xs)) ≡ length (keep p (x ∷ xs))
  unfolding insert keep
  length-keep-insert x [] = refl
  length-keep-insert x (y ∷ ys) = ground (arith, length-keep-insert x ys)

  length-keep-cons :
      (x : A) (ys xs : List A)
      → length (keep p ys) ≡ length (keep p xs)
      → length (keep p (x ∷ ys)) ≡ length (keep p (x ∷ xs))
  unfolding keep
  length-keep-cons x ys xs h = ground arith

  -- Sorting changes no count.
  pub length-keep-sort : (xs : List A) → length (keep p (sort less xs)) ≡ length (keep p xs)
  unfolding sort
  length-keep-sort [] = refl
  length-keep-sort (x ∷ xs) =
      length-keep-insert x (sort less xs)
      ∙ length-keep-cons x (sort less xs) xs (length-keep-sort xs)

-- The names of a list hold the name of each of its entries.
ids_of-contains : (es : List RetiredEntry) → All (λ e. contains (map (λ e. e.id) es) e.id ≡ true) es
unfolding contains
ids_of-contains [] = tt
ids_of-contains (x ∷ es) = (
  rw eq_refl,
  All-imp (λ e. contains (map (λ e. e.id) es) e.id ≡ true) _ es (λ e h. ground (arith, h))
      (ids_of-contains es),
)

keep-outside-eq_nil :
    (ids : List String) (es : List RetiredEntry)
    → All (λ e. contains ids e.id ≡ true) es
    → keep (outside ids) es ≡ []
unfolding keep
keep-outside-eq_nil ids [] h = refl
keep-outside-eq_nil ids (e ∷ es) h = ground (arith, keep-outside-eq_nil ids es h.1)

-- Dropping the names of the first n of a list leaves at most the others.
length-keep-outside-take :
    (n : ℕ) (es : List RetiredEntry)
    → length (keep (outside (map (λ e. e.id) (take n es))) es) ≤ length es - n
length-keep-outside-take n es =
    let ids = map (λ (e : RetiredEntry). e.id) (take n es) in
    let split : keep (outside ids) es ≡ keep (outside ids) (drop n es) =
      ap (keep (outside ids)) (sym (take-append-drop n es))
      ∙ (keep-append (outside ids) (take n es) (drop n es)
          ∙ ap (λ (l : List RetiredEntry). l ++ keep (outside ids) (drop n es))
              (keep-outside-eq_nil ids (take n es) (ids_of-contains (take n es)))) in
    rw split (omega (arith, length-keep (outside ids) (drop n es), length-drop n es))

module _ (clock : Rfc3339) where
  -- Deleting the names of the n oldest retired entries leaves at most the others.
  length-delete_oldest :
      (m : Map EntityState) (n : ℕ)
      → let oldest = take n (sort retired_before (retired_entries clock m)) in
        length (retired_entries clock (delete_all (map (λ e. e.id) oldest) m))
        ≤ length (retired_entries clock m) - n
  length-delete_oldest m n =
      let sorted = sort retired_before (retired_entries clock m) in
      let ids = map (λ (e : RetiredEntry). e.id) (take n sorted) in
      rw (retired_entries-delete_all clock ids m) (
        omega (
          arith,
          length-keep-sort retired_before (outside ids) (retired_entries clock m),
          length-keep-outside-take n sorted,
          length-sort retired_before (retired_entries clock m),
        ))

  -- With a positive limit, the trim leaves at most that many retired entities in a bucket.
  pub trim-bounds_retired :
      (m : Map EntityState) (limit : ℤ)
      → Int.le limit (pos 0) ≡ false
      → retired_count clock (trim_retired_bucket clock m limit) ≤ pos_part limit
  unfolding trim_retired_bucket
  trim-bounds_retired m (pos limit) h =
      ground (arith, length-delete_oldest m (trim_count clock m (pos limit)))
  trim-bounds_retired m (negsuc n) h = absurd (ground arith)
