-- ===== src/Go/Float.antt =====
-- Go's `float64`. A value is its 64 bits (`math.Float64bits`). The arithmetic is that of the
-- machine and of package `math`: a parameter, which the code reaches through this interface.
use bering.Prelude.{
  ℕ, zero, suc, ◌+◌, ◌-◌, ◌*◌, ◌/◌, ◌^◌, ◌≡◌, Bool, true, false, ◌≤◌, ◌<◌, arith, ltb, eqb,
  if◌then◌else◌,
}
use bering.Go.Int.{ℤ, pos, pos_part}

abbrev pub Float : Type 0
Float = ℕ

pub record FloatOps : Type 0 where
  -- `decimal n k` is the constant n / 10^k of the source.
  pub decimal : ℕ → ℕ → Float
  pub of_int : ℤ → Float
  -- `int(x)`
  pub to_int : Float → ℤ
  pub add : Float → Float → Float
  pub sub : Float → Float → Float
  pub mul : Float → Float → Float
  pub div : Float → Float → Float
  -- `math.Round`, `math.Ceil` and `math.Max`
  pub round : Float → Float
  pub ceil : Float → Float
  pub max : Float → Float → Float
  -- `strconv.FormatFloat(x, 'f', 3, 64)`, read back by `strconv.ParseFloat`
  pub fixed3 : Float → Float
  -- `x < y` and `x == y`, false where either is NaN
  pub lt : Float → Float → Bool
  pub equal : Float → Float → Bool

-- `x <= y`, false where either is NaN; `x >= y` is `le fl y x`.
abbrev pub le : FloatOps → Float → Float → Bool
le fl x y = if fl.lt x y then true else fl.equal x y

-- Neither below 0 nor above 1. A NaN satisfies this, as it passes the same tests of the source.
abbrev pub InUnit : FloatOps → Float → Type 0
InUnit fl x = (fl.lt x (fl.decimal 0 0) ≡ false) × (fl.lt (fl.decimal 1 0) x ≡ false)

-- What the reconciliation relies on of the arithmetic.
pub record IsRounding (fl : FloatOps) : Type 0 where
  pub zero_InUnit : InUnit fl (fl.decimal 0 0)
  pub one_InUnit : InUnit fl (fl.decimal 1 0)
  -- Rounding to thousandths does not leave the unit interval, since its ends are thousandths.
  pub round_InUnit :
      (x : Float)
      → InUnit fl x
      → InUnit fl (fl.div (fl.round (fl.mul x (fl.decimal 1000 0))) (fl.decimal 1000 0))
  -- The positive constants of the source are above 0.
  pub decimal_positive : (n k : ℕ) → 0 < n → k ≤ 3 → le fl (fl.decimal n k) (fl.decimal 0 0) ≡ false

-- A saturating arithmetic in thousandths, at which the assumptions hold.
abbrev pub thousandths : FloatOps
thousandths = record {
  decimal = λ n k. n * 1000 / 10 ^ k;
  of_int = λ z. pos_part z * 1000;
  to_int = λ x. pos (x / 1000);
  add = λ x y. x + y;
  sub = λ x y. x - y;
  mul = λ x y. x * y / 1000;
  div = λ x y. x * 1000 / y;
  round = λ x. (x + 500) / 1000 * 1000;
  ceil = λ x. (x + 999) / 1000 * 1000;
  max = λ x y. if ltb x y then y else x;
  fixed3 = λ x. x;
  lt = ltb;
  equal = eqb;
}

-- A constant of at most three decimals is a whole number of thousandths.
thousandths-positive :
    (n k : ℕ)
    → 0 < n
    → k ≤ 3
    → le thousandths (thousandths.decimal n k) (thousandths.decimal 0 0) ≡ false
thousandths-positive n zero h b = ground arith
thousandths-positive n (suc zero) h b = ground arith
thousandths-positive n (suc (suc zero)) h b = ground arith
thousandths-positive n (suc (suc (suc zero))) h b = ground arith
thousandths-positive n (suc (suc (suc (suc k)))) h b = absurd (omega arith)

pub thousandths-IsRounding : IsRounding thousandths
thousandths-IsRounding = record {
  zero_InUnit = ground arith;
  one_InUnit = ground arith;
  round_InUnit = λ x h. ground arith;
  decimal_positive = thousandths-positive;
}
