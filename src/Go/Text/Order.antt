-- ===== src/Go/Text/Order.antt =====
-- `<` on texts: a strict order.
use Prim.Native.Char.{Char, code}
use Prim.Native.Nat.{Ordering, compare as compare_ℕ}
use Prim.Native.Nat.compare as compare_ℕ
use Prim.Native.String.compare
use Prim.Native.String.{compare, then, [], ◌∷◌}
use text.Mathlib.TextEquality.{path_by_compare}
use bering.Prelude.{
  ℕ, zero, suc, String, ◌≡◌, refl, sym, ap, ◌∙◌, Bool, true, false, ◌&&◌, ◌||◌, ltb, eqb, arith,
}

abbrev is_lt : Ordering → Bool
is_lt Ordering.lt = true
is_lt Ordering.eq = false
is_lt Ordering.gt = false

-- s < t
unfoldable pub less : String → String → Bool
less s t = is_lt (compare s t)

-- The answer with the sides exchanged.
flip : Ordering → Ordering
flip Ordering.lt = Ordering.gt
flip Ordering.eq = Ordering.eq
flip Ordering.gt = Ordering.lt

flip-then : (o r : Ordering) → flip (then o r) ≡ then (flip o) (flip r)
unfolding flip
flip-then Ordering.lt r = refl
flip-then Ordering.eq r = refl
flip-then Ordering.gt r = refl

flip-compare_ℕ : (m n : ℕ) → compare_ℕ n m ≡ flip (compare_ℕ m n)
unfolding flip
flip-compare_ℕ zero zero = refl
flip-compare_ℕ zero (suc n) = compare_ℕ.suc-zero n ∙ ap flip (sym (compare_ℕ.zero-suc n))
flip-compare_ℕ (suc m) zero = compare_ℕ.zero-suc m ∙ ap flip (sym (compare_ℕ.suc-zero m))
flip-compare_ℕ (suc m) (suc n) =
    compare_ℕ.suc-suc n m ∙ flip-compare_ℕ m n ∙ ap flip (sym (compare_ℕ.suc-suc m n))

flip-compare : (s t : String) → compare t s ≡ flip (compare s t)
unfolding flip
flip-compare [] [] = refl
flip-compare [] (d ∷ t) = compare.cons-nil d t ∙ ap flip (sym (compare.nil-cons d t))
flip-compare (c ∷ s) [] = compare.nil-cons c s ∙ ap flip (sym (compare.cons-nil c s))
flip-compare (c ∷ s) (d ∷ t) =
    compare.cons-cons d c t s
    ∙ ap (λ o. then o (compare t s)) (flip-compare_ℕ (code c) (code d))
    ∙ ap (λ o. then (flip (compare_ℕ (code c) (code d))) o) (flip-compare s t)
    ∙ sym (flip-then (compare_ℕ (code c) (code d)) (compare s t))
    ∙ ap flip (sym (compare.cons-cons c d s t))

is_lt-flip : (o : Ordering) → is_lt o ≡ true → is_lt (flip o) ≡ false
unfolding flip
is_lt-flip Ordering.lt h = refl
is_lt-flip Ordering.eq h = refl
is_lt-flip Ordering.gt h = cc

pub less-asym : (s t : String) → less s t ≡ true → less t s ≡ false
unfolding less
less-asym s t h = ap is_lt (flip-compare s t) ∙ is_lt-flip (compare s t) h

is_lt-then :
    (o r : Ordering)
    → is_lt (then o r) ≡ (
        elim o [ Ordering.lt ↦ true | _ ↦ false ]
        || (elim o [ Ordering.eq ↦ true | _ ↦ false ] && is_lt r))
is_lt-then Ordering.lt r = refl
is_lt-then Ordering.eq r = refl
is_lt-then Ordering.gt r = refl

less-cons :
    (c d : Char) (s t : String)
    → less (c ∷ s) (d ∷ t) ≡ (ltb (code c) (code d) || (eqb (code c) (code d) && less s t))
unfolding less
less-cons c d s t =
    ap is_lt (compare.cons-cons c d s t) ∙ is_lt-then (compare_ℕ (code c) (code d)) (compare s t)

less-nil : (s : String) → less s [] ≡ false
unfolding less
less-nil [] = ap is_lt compare.nil-nil
less-nil (c ∷ s) = ap is_lt (compare.cons-nil c s)

nil-less : (c : Char) (s : String) → less [] (c ∷ s) ≡ true
unfolding less
nil-less c s = ap is_lt (compare.nil-cons c s)

pub less_trans : (s t u : String) → less s t ≡ true → less t u ≡ true → less s u ≡ true
less_trans s [] u h k = ground (arith, less-nil s)
less_trans s (d ∷ t) [] h k = ground (arith, less-nil (d ∷ t))
less_trans [] (d ∷ t) (e ∷ u) h k = nil-less e u
less_trans (c ∷ s) (d ∷ t) (e ∷ u) h k =
    ground (arith, less-cons c d s t, less-cons d e t u, less-cons c e s u, less_trans s t u)

pub less_irrefl : (s : String) → less s s ≡ false
less_irrefl s = ground (arith, less-asym s s)

-- What is not less than a text is not less than a text that is less.
pub less_below : (s t u : String) → less t s ≡ false → less u s ≡ true → less t u ≡ false
less_below s t u h k = ground (arith, less_trans t u s)

connex : (o : Ordering) → is_lt o ≡ false → is_lt (flip o) ≡ false → o ≡ Ordering.eq
unfolding flip
connex Ordering.lt h k = cc
connex Ordering.eq h k = refl
connex Ordering.gt h k = cc

-- Two texts of which neither is less are equal.
pub less_connex : (s t : String) → less s t ≡ false → less t s ≡ false → s ≡ t
unfolding less
less_connex s t h k =
    path_by_compare s t (connex (compare s t) h (sym (ap is_lt (flip-compare s t)) ∙ k))
