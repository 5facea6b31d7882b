-- ===== src/Go/Text/Decimal.antt =====
-- `%d` of package `fmt` at a natural number, and `len` of a text: its bytes in UTF-8.
use Prim.Native.Char.{code}
use Prim.Native.String.{[], ◌∷◌}
use bering.Prelude.{
  ℕ, zero, suc, ◌+◌, ◌/◌, ◌%◌, ◌≤◌, String, ◌<>◌, ◌≡◌, refl, Bool-cases, inl, inr, arith, ltb,
  if◌then◌else◌,
}
use bering.Go.Text.Escape.{nth}

unfoldable pub decimal_fuel : ℕ → ℕ → String
unfolding nth
decimal_fuel zero n = nth "0123456789" n
decimal_fuel (suc fuel) n =
    let rest = decimal_fuel fuel (n / 10) in
    if ltb n 10 then nth "0123456789" n else rest <> nth "0123456789" (n % 10)

-- The number itself is fuel enough: more fuel gives the same text.
pub decimal_enough : (f g n : ℕ) → n ≤ f → n ≤ g → decimal_fuel f n ≡ decimal_fuel g n
unfolding decimal_fuel
decimal_enough zero zero n h k = refl
decimal_enough zero (suc g) n h k = ground arith
decimal_enough (suc f) zero n h k = ground arith
decimal_enough (suc f) (suc g) n h k = elim (Bool-cases (ltb n 10)) [
  | inl small ↦ rw small refl
  | inr large ↦ rw (large, decimal_enough f g (n / 10) (omega arith) (omega arith)) refl
]

unfoldable pub decimal : ℕ → String
decimal n = decimal_fuel n n

-- The bytes of a character in UTF-8.
width : ℕ → ℕ
width c = if ltb c 128 then 1 else if ltb c 2048 then 2 else if ltb c 65536 then 3 else 4

unfoldable pub byte_length : String → ℕ
unfolding width
byte_length [] = 0
byte_length (c ∷ s) = width (code c) + byte_length s

decimal_tests : (decimal 0 ≡ "0") × (decimal 1207 ≡ "1207") × (byte_length "aé" ≡ 3)
unfolding decimal decimal_fuel byte_length
decimal_tests = (refl, refl, refl)
