-- ===== src/Snapshot/Diff/Names.antt =====
-- snapshot.go: the names that the counts of a diff between two maps count.
use bering.Prelude.{
  ◌≡◌, refl, ap, subst, ◌∙◌, map, Bool, false, ◌&&◌, ◌||◌, not, Option, none, some, List, [], ◌∷◌,
  length, arith, String, ◌==◌, eq_iff, eq_refl, if◌then◌else◌, Bool-cases, inl, inr,
}
use bering.Go.Int.{ℤ, pos}
use bering.Go.Map.{
  Map, lookup, has, contains, NodupKeys, is_some, put, by_key, by_key-NodupKeys, has-put,
  lookup-put,
}
use bering.Model.Integrity.{Distinct}
use bering.Snapshot.Diff.{diff_added, diff_changed, is_changed}

-- The last record of a list under a name.
unfoldable pub latest : {V : Type 0} → (V → String) → String → List V → Option V
latest key k [] = none
latest key k (x ∷ xs) =
    let later = latest key k xs in
    if is_some later then later else if key x == k then some x else none

-- How many names pass the test: some list has exactly these names, each once.
pub record IsCount (passes : String → Bool) (n : ℤ) : Type 0 where
  pub names : List String
  pub distinct : Distinct names
  pub exact : (k : String) → contains names k ≡ passes k
  pub count : n ≡ pos (length names)

-- There are two values, and they are not equal.
abbrev pub differ : {V : Type 0} → (V → V → Bool) → Option V → Option V → Bool
differ equal none o = false
differ equal (some v) none = false
differ equal (some v) (some w) = not (equal v w)

module _ {V : Type 0} where
  unfoldable added_names : Map V → Map V → List String
  added_names left [] = []
  added_names left ((k, v) ∷ right) =
      let rest = added_names left right in if has k left then rest else k ∷ rest

  contains-added_names :
      (left right : Map V) (j : String)
      → contains (added_names left right) j ≡ (has j right && not (has j left))
  unfolding added_names contains has
  contains-added_names left [] j = refl
  contains-added_names left ((k, v) ∷ right) j = elim (Bool-cases (k == j)) [
    | inl same ↦
        subst
          (λ (i : String).
            contains (added_names left ((k, v) ∷ right)) i
            ≡ (has i ((k, v) ∷ right) && not (has i left)))
          ((eq_iff k j).0 same) (ground (arith, eq_refl k, contains-added_names left right k))
    | inr other ↦ ground (arith, contains-added_names left right j)
  ]

  added_names-Distinct : (left right : Map V) → NodupKeys right → Distinct (added_names left right)
  unfolding added_names
  added_names-Distinct left [] h = tt
  added_names-Distinct left ((k, v) ∷ right) h =
      ground (arith, contains-added_names left right k, added_names-Distinct left right h.1)

  length-added_names :
      (left right : Map V) → diff_added left right ≡ length (added_names left right)
  unfolding added_names diff_added
  length-added_names left [] = refl
  length-added_names left ((k, v) ∷ right) = ground (arith, length-added_names left right)

  pub added-IsCount :
      (left right : Map V)
      → NodupKeys right
      → IsCount (λ k. has k right && not (has k left)) (pos (diff_added left right))
  added-IsCount left right h = record {
    names = added_names left right;
    distinct = added_names-Distinct left right h;
    exact = contains-added_names left right;
    count = ap pos (length-added_names left right);
  }

  module _ (equal : V → V → Bool) where
    unfoldable changed_names : Map V → Map V → List String
    changed_names [] right = []
    changed_names ((k, v) ∷ left) right =
        let rest = changed_names left right in
        if differ equal (some v) (lookup k right) then k ∷ rest else rest

    absent_lookup : (k : String) (m : Map V) → has k m ≡ false → lookup k m ≡ none
    unfolding has lookup
    absent_lookup k [] h = refl
    absent_lookup k ((j, v) ∷ m) h = ground (arith, absent_lookup k m)

    contains-changed_names :
        (left right : Map V) (j : String)
        → NodupKeys left
        → contains (changed_names left right) j ≡ differ equal (lookup j left) (lookup j right)
    unfolding changed_names contains lookup
    contains-changed_names [] right j h = refl
    contains-changed_names ((k, v) ∷ left) right j h = elim (Bool-cases (k == j)) [
      | inl same ↦
          subst
            (λ (i : String).
              contains (changed_names ((k, v) ∷ left) right) i
              ≡ differ equal (lookup i ((k, v) ∷ left)) (lookup i right))
            ((eq_iff k j).0 same)
            (let before = contains-changed_names left right k h.1 in
              let gone = absent_lookup k left h.0 in ground (arith, eq_refl k, before, gone))
      | inr other ↦ ground (arith, contains-changed_names left right j h.1)
    ]

    changed_names-Distinct :
        (left right : Map V) → NodupKeys left → Distinct (changed_names left right)
    unfolding changed_names
    changed_names-Distinct [] right h = tt
    changed_names-Distinct ((k, v) ∷ left) right h =
        let before = contains-changed_names left right k h.1 in
        let gone = absent_lookup k left h.0 in
        ground (arith, before, gone, changed_names-Distinct left right h.1)

    length-changed_names :
        (left right : Map V) → diff_changed equal left right ≡ length (changed_names left right)
    unfolding changed_names diff_changed is_changed
    length-changed_names [] right = refl
    length-changed_names ((k, v) ∷ left) right = ground (arith, length-changed_names left right)

    pub changed-IsCount :
        (left right : Map V)
        → NodupKeys left
        → IsCount
            (λ k. differ equal (lookup k left) (lookup k right))
            (pos (diff_changed equal left right))
    changed-IsCount left right h = record {
      names = changed_names left right;
      distinct = changed_names-Distinct left right h;
      exact = λ k. contains-changed_names left right k h;
      count = ap pos (length-changed_names left right);
    }

module _ {V : Type 0} (key : V → String) where
  has-by_key :
      (k : String) (m : Map V) (items : List V)
      → has k (by_key key m items) ≡ (contains (map key items) k || has k m)
  unfolding by_key contains
  has-by_key k m [] = refl
  has-by_key k m (x ∷ xs) = ground (arith, has-by_key k (put (key x) x m) xs, has-put (key x) k x m)

  lookup-by_key :
      (k : String) (m : Map V) (items : List V)
      → lookup k (by_key key m items)
        ≡ (if is_some (latest key k items) then latest key k items else lookup k m)
  unfolding by_key latest
  lookup-by_key k m [] = refl
  lookup-by_key k m (x ∷ xs) =
      ground (arith, lookup-by_key k (put (key x) x m) xs, lookup-put (key x) k x m)

  has-of : (k : String) (items : List V) → has k (by_key key [] items) ≡ contains (map key items) k
  unfolding has
  has-of k items = ground (arith, has-by_key k [] items)

  some_or_none : (o : Option V) → (if is_some o then o else none) ≡ o
  some_or_none none = refl
  some_or_none (some v) = refl

  lookup-of : (k : String) (items : List V) → lookup k (by_key key [] items) ≡ latest key k items
  unfolding lookup
  lookup-of k items = lookup-by_key k [] items ∙ some_or_none (latest key k items)

recount : (P Q : String → Bool) (n : ℤ) → ((k : String) → P k ≡ Q k) → IsCount P n → IsCount Q n
recount P Q n same h = record {
  names = h.names;
  distinct = h.distinct;
  exact = λ k. h.exact k ∙ same k;
  count = h.count;
}

module _ {V : Type 0} (key : V → String) (equal : V → V → Bool) (before after : List V) where
  -- What the counts are of two lists of records: the names that only the later list has, those that
  -- only the earlier has, and those whose last records in the two lists are not equal.
  pub record IsDiff (added removed changed : ℤ) : Type 0 where
    pub added_ones :
        IsCount (λ k. contains (map key after) k && not (contains (map key before) k)) added
    pub removed_ones :
        IsCount (λ k. contains (map key before) k && not (contains (map key after) k)) removed
    pub changed_ones :
        IsCount (λ k. differ equal (latest key k before) (latest key k after)) changed

  pub by_key-IsDiff :
      let left = by_key key [] before in
      let right = by_key key [] after in
      IsDiff
        (pos (diff_added left right))
        (pos (diff_added right left))
        (pos (diff_changed equal left right))
  by_key-IsDiff =
      let left = by_key key [] before in
      let right = by_key key [] after in
      let left_once = by_key-NodupKeys key [] before tt in
      let right_once = by_key-NodupKeys key [] after tt in
      record {
        added_ones =
            recount _ _ _ (λ k. rw (has-of key k before, has-of key k after) refl)
              (added-IsCount left right right_once);
        removed_ones =
            recount _ _ _ (λ k. rw (has-of key k before, has-of key k after) refl)
              (added-IsCount right left left_once);
        changed_ones =
            recount _ _ _ (λ k. rw (lookup-of key k before, lookup-of key k after) refl)
              (changed-IsCount equal left right left_once);
      }
