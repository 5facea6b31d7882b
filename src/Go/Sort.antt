-- ===== src/Go/Sort.antt =====
-- `sort.Slice` and `sort.Strings`, as insertion by the same order. Go's sort is not stable, so the
-- order of elements that the order cannot tell apart is the one that the list had.
use mathlib.Core.List.{Perm}
use mathlib.Core.List.Perm
use bering.Go.Map.{contains}
use bering.Prelude.{
  All, map, String, refl, ◌∙◌, ◌≡◌, Bool, true, false, List, [], ◌∷◌, arith, if◌then◌else◌, length,
  suc, Bool-cases, inl, inr,
}

module _ {ℓ} {A : Type ℓ} (less : A → A → Bool) where
  unfoldable pub insert : A → List A → List A
  insert x [] = x ∷ []
  insert x (y ∷ ys) = if less y x then y ∷ insert x ys else x ∷ y ∷ ys

  unfoldable pub sort : List A → List A
  unfolding insert
  sort [] = []
  sort (x ∷ xs) = insert x (sort xs)

  -- Nothing stands directly before an element that is less than it.
  abbrev pub FirstFits : A → List A → Type 0
  FirstFits x [] = Unit
  FirstFits x (y ∷ ys) = less y x ≡ false

  abbrev pub IsSorted : List A → Type 0
  IsSorted [] = Unit
  IsSorted (x ∷ xs) = FirstFits x xs × IsSorted xs

  pub length-insert : (x : A) (xs : List A) → length (insert x xs) ≡ suc (length xs)
  unfolding insert
  length-insert x [] = ground arith
  length-insert x (y ∷ ys) = ground (arith, length-insert x ys)

  pub length-sort : (xs : List A) → length (sort xs) ≡ length xs
  unfolding sort
  length-sort [] = ground arith
  length-sort (x ∷ xs) = ground (arith, length-sort xs, length-insert x (sort xs))

  pub insert-perm : (x : A) (xs : List A) → Perm (insert x xs) (x ∷ xs)
  unfolding insert
  insert-perm x [] = Perm.refl (x ∷ [])
  insert-perm x (y ∷ ys) = elim (Bool-cases (less y x)) [
    | inl before ↦ rw before (Perm.trans (Perm.cons y (insert-perm x ys)) (Perm.swap x y ys))
    | inr after ↦ rw after (Perm.refl (x ∷ y ∷ ys))
  ]

  pub sort-perm : (xs : List A) → Perm (sort xs) xs
  unfolding sort
  sort-perm [] = Perm.refl []
  sort-perm (x ∷ xs) = Perm.trans (insert-perm x (sort xs)) (Perm.cons x (sort-perm xs))

module _ {ℓ} {A : Type ℓ} (less : A → A → Bool)
    (asym : (x y : A) → less x y ≡ true → less y x ≡ false) where
  FirstFits-insert :
      (y x : A) (ys : List A)
      → less x y ≡ false
      → FirstFits less y ys
      → FirstFits less y (insert less x ys)
  unfolding insert
  FirstFits-insert y x [] h f = h
  FirstFits-insert y x (z ∷ zs) h f = ground arith

  pub insert-IsSorted : (x : A) (xs : List A) → IsSorted less xs → IsSorted less (insert less x xs)
  unfolding insert
  insert-IsSorted x [] s = (tt, tt)
  insert-IsSorted x (y ∷ ys) s = elim (Bool-cases (less y x)) [
    | inl before ↦
        rw before (FirstFits-insert y x ys (asym y x before) s.0, insert-IsSorted x ys s.1)
    | inr after ↦ rw after (after, s)
  ]

  pub sort-IsSorted : (xs : List A) → IsSorted less (sort less xs)
  unfolding sort
  sort-IsSorted [] = tt
  sort-IsSorted (x ∷ xs) = insert-IsSorted x (sort less xs) (sort-IsSorted xs)

module _ {ℓ κ} {A : Type ℓ} (P : A → Type κ) (less : A → A → Bool) where
  pub All-insert : (x : A) (xs : List A) → P x → All P xs → All P (insert less x xs)
  unfolding insert
  All-insert x [] p h = (p, tt)
  All-insert x (y ∷ ys) p h = elim (Bool-cases (less y x)) [
    | inl before ↦ rw before (h.0, All-insert x ys p h.1)
    | inr after ↦ rw after (p, h)
  ]

  -- Sorting keeps what holds of every element.
  pub All-sort : (xs : List A) → All P xs → All P (sort less xs)
  unfolding sort
  All-sort [] h = tt
  All-sort (x ∷ xs) h = All-insert x (sort less xs) h.0 (All-sort xs h.1)

module _ {ℓ} {A : Type ℓ} (name : A → String) (less : A → A → Bool) (k : String) where
  contains-insert :
      (x : A) (xs : List A)
      → contains (map name (insert less x xs)) k ≡ contains (map name (x ∷ xs)) k
  unfolding insert contains
  contains-insert x [] = refl
  contains-insert x (y ∷ ys) = elim (Bool-cases (less y x)) [
    | inl before ↦ rw (before, contains-insert x ys) (ground arith)
    | inr after ↦ rw after
  ]

  contains-cons :
      (x : A) (ys xs : List A)
      → contains (map name ys) k ≡ contains (map name xs) k
      → contains (map name (x ∷ ys)) k ≡ contains (map name (x ∷ xs)) k
  unfolding contains
  contains-cons x ys xs h = ground arith

  -- Sorting keeps the names of a list.
  pub contains-sort :
      (xs : List A) → contains (map name (sort less xs)) k ≡ contains (map name xs) k
  unfolding sort
  contains-sort [] = refl
  contains-sort (x ∷ xs) =
      contains-insert x (sort less xs) ∙ contains-cons x (sort less xs) xs (contains-sort xs)
