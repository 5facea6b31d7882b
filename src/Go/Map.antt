-- ===== src/Go/Map.antt =====
-- Go's `map[string]V` as an association list. The order of the list is one order in which `range`
-- may visit the entries.
use bering.Prelude.{
  refl, String, All, Bool-cases, inl, inr, subst, sym, ◌≡◌, Bool, ◌||◌, true, false, Option, none,
  some, List, [], ◌∷◌, arith, ◌==◌, eq_iff, if◌then◌else◌,
}

-- A set of texts, `map[string]struct{}`, and the test of a member.
unfoldable pub contains : List String → String → Bool
contains [] a = false
contains (x ∷ xs) a = x == a || contains xs a

abbrev pub Map {ℓ} : Type ℓ → Type ℓ
Map V = List (String × V)

module _ {ℓ} {V : Type ℓ} where
  unfoldable pub lookup : String → Map V → Option V
  lookup k [] = none
  lookup k ((j, v) ∷ m) = if j == k then some v else lookup k m

  -- `m[k] = v`
  unfoldable pub put : String → V → Map V → Map V
  put k v [] = (k, v) ∷ []
  put k v ((j, w) ∷ m) = if j == k then (j, v) ∷ m else (j, w) ∷ put k v m

  -- `delete(m, k)`
  unfoldable pub delete : String → Map V → Map V
  delete k [] = []
  delete k ((j, w) ∷ m) = let rest = delete k m in if j == k then rest else (j, w) ∷ rest

  abbrev pub is_some : Option V → Bool
  is_some none = false
  is_some (some v) = true

  -- `_, ok := m[k]`
  unfoldable pub has : String → Map V → Bool
  has k [] = false
  has k ((j, v) ∷ m) = if j == k then true else has k m

-- `for _, item := range items { m[key(item)] = item }`
unfoldable pub by_key {ℓ} : {A : Type ℓ} → (A → String) → Map A → List A → Map A
by_key key m [] = m
by_key key m (item ∷ rest) = by_key key (put (key item) item m) rest

module _ {ℓ κ} {V : Type ℓ} (P : String × V → Type κ) where
  pub All-put : (k : String) (v : V) (m : Map V) → P (k, v) → All P m → All P (put k v m)
  unfolding put
  All-put k v [] p h = (p, tt)
  All-put k v ((j, w) ∷ m) p h = elim (Bool-cases (j == k)) [
    | inl same ↦ rw same (subst (λ (i : String). P (i, v)) (sym ((eq_iff j k).0 same)) p, h.1)
    | inr other ↦ rw other (h.0, All-put k v m p h.1)
  ]

  pub All-lookup : (k : String) (m : Map V) {v : V} → lookup k m ≡ some v → All P m → P (k, v)
  unfolding lookup
  All-lookup k [] e h = cc
  All-lookup k ((j, w) ∷ m) {v} e h = elim (Bool-cases (j == k)) [
    | inl same ↦
        let held : w ≡ v = ground arith in
        subst (λ (x : V). P (k, x)) held
          (subst (λ (i : String). P (i, w)) ((eq_iff j k).0 same) h.0)
    | inr other ↦ All-lookup k m (ground arith) h.1
  ]

  pub All-delete : (k : String) (m : Map V) → All P m → All P (delete k m)
  unfolding delete
  All-delete k [] h = tt
  All-delete k ((j, w) ∷ m) h = elim (Bool-cases (j == k)) [
    | inl same ↦ rw same (All-delete k m h.1)
    | inr other ↦ rw other (h.0, All-delete k m h.1)
  ]

-- A Go map has each key once.
abbrev pub NodupKeys {ℓ} : {V : Type ℓ} → Map V → Type 0
NodupKeys [] = Unit
NodupKeys ((k, _) ∷ m) = (has k m ≡ false) × NodupKeys m

module _ {ℓ} {V : Type ℓ} where
  pub has-eq-is_some : (k : String) (m : Map V) → has k m ≡ is_some (lookup k m)
  unfolding has lookup
  has-eq-is_some k [] = refl
  has-eq-is_some k ((j, v) ∷ m) = ground (arith, has-eq-is_some k m)

  pub has-put :
      (k j : String) (v : V) (m : Map V) → has j (put k v m) ≡ (if k == j then true else has j m)
  unfolding has put
  has-put k j v [] = refl
  has-put k j v ((i, w) ∷ m) = ground (arith, eq_iff k j, eq_iff i k, eq_iff i j, has-put k j v m)

  pub lookup-put :
      (k j : String) (v : V) (m : Map V)
      → lookup j (put k v m) ≡ (if k == j then some v else lookup j m)
  unfolding lookup put
  lookup-put k j v [] = refl
  lookup-put k j v ((i, w) ∷ m) =
      ground (arith, eq_iff k j, eq_iff i k, eq_iff i j, lookup-put k j v m)

  pub lookup-delete :
      (k j : String) (m : Map V) → lookup j (delete k m) ≡ (if k == j then none else lookup j m)
  unfolding lookup delete
  lookup-delete k j [] = ground arith
  lookup-delete k j ((i, w) ∷ m) =
      ground (arith, eq_iff k j, eq_iff i k, eq_iff i j, lookup-delete k j m)

  pub put-NodupKeys : (k : String) (v : V) (m : Map V) → NodupKeys m → NodupKeys (put k v m)
  unfolding put has
  put-NodupKeys k v [] h = (refl, tt)
  put-NodupKeys k v ((i, w) ∷ m) h =
      ground (arith, eq_iff i k, eq_iff k i, has-put k i v m, put-NodupKeys k v m h.1)

  pub by_key-NodupKeys :
      (key : V → String) (m : Map V) (items : List V) → NodupKeys m → NodupKeys (by_key key m items)
  unfolding by_key
  by_key-NodupKeys key m [] h = h
  by_key-NodupKeys key m (item ∷ rest) h =
      by_key-NodupKeys key (put (key item) item m) rest (put-NodupKeys (key item) item m h)
