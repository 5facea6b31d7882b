-- ===== src/Go/Int.antt =====
-- Go's `int` and `int64`: 64-bit two's complement, as signed integers with the wrap written out.
use bering.Prelude.{ℕ, suc, ◌+◌, ◌-◌, ◌^◌, ◌≤◌, ◌<◌, ◌≡◌, Bool, arith, ltb, leb, eqb, if◌then◌else◌}

-- `negsuc n` is -(n + 1).
pub data ℤ : Type 0 where
  pos : ℕ → ℤ
  negsuc : ℕ → ℤ

abbrev pub pos_part : ℤ → ℕ
pos_part (pos n) = n
pos_part (negsuc n) = 0

abbrev pub neg_part : ℤ → ℕ
neg_part (pos n) = 0
neg_part (negsuc n) = suc n

-- a - b, as an integer.
abbrev pub sub_ℕ : ℕ → ℕ → ℤ
sub_ℕ a b = if leb b a then pos (a - b) else negsuc (b - a - 1)

infixl 65 ◌+ℤ◌ ◌-ℤ◌
infix 50 ◌≤ℤ◌ ◌<ℤ◌
unfoldable pub ◌+ℤ◌ : ℤ → ℤ → ℤ
a +ℤ b = sub_ℕ (pos_part a + pos_part b) (neg_part a + neg_part b)

unfoldable pub ◌-ℤ◌ : ℤ → ℤ → ℤ
a -ℤ b = sub_ℕ (pos_part a + neg_part b) (neg_part a + pos_part b)

abbrev pub ◌≤ℤ◌ : ℤ → ℤ → Type 0
a ≤ℤ b = pos_part a + neg_part b ≤ pos_part b + neg_part a

abbrev pub ◌<ℤ◌ : ℤ → ℤ → Type 0
a <ℤ b = pos_part a + neg_part b < pos_part b + neg_part a

-- `a < b`, `a <= b` and `a == b` of the source.
abbrev pub lt : ℤ → ℤ → Bool
lt a b = ltb (pos_part a + neg_part b) (pos_part b + neg_part a)

abbrev pub le : ℤ → ℤ → Bool
le a b = leb (pos_part a + neg_part b) (pos_part b + neg_part a)

abbrev pub equal : ℤ → ℤ → Bool
equal a b = eqb (pos_part a + neg_part b) (pos_part b + neg_part a)

abbrev pub max_int : ℕ
max_int = 2 ^ 63 - 1

abbrev two_64 : ℕ
two_64 = 2 ^ 64

-- The result of a sum or a difference of two 64-bit integers, brought back into range.
unfoldable pub wrap : ℤ → ℤ
wrap z =
    if lt (pos max_int) z
    then z -ℤ pos two_64
    else if lt z (negsuc max_int)
    then z +ℤ pos two_64
    else z

unfoldable pub add : ℤ → ℤ → ℤ
unfolding wrap ◌+ℤ◌ ◌-ℤ◌
add a b = wrap (a +ℤ b)

unfoldable pub sub : ℤ → ℤ → ℤ
unfolding wrap ◌+ℤ◌ ◌-ℤ◌
sub a b = wrap (a -ℤ b)

-- The difference of two lengths does not overflow.
pub sub-pos : (t l : ℕ) → l ≤ t → t ≤ max_int → sub (pos t) (pos l) ≡ pos (t - l)
unfolding sub
sub-pos t l h k = ground arith

-- A count that has room does not overflow.
pub add_one : (n : ℕ) → n + 1 ≤ max_int → add (pos n) (pos 1) ≡ pos (n + 1)
unfolding add
add_one n h = ground arith
