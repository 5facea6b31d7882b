-- ===== src/Reconciliation/Numbers.antt =====
-- internal/reconciliation: `clamp01` and `maxInt` of types.go, `maxFloat`, `minFloat` and
-- `clampGapEMA` of engine.go.
use bering.Prelude.{if◌then◌else◌, Bool-cases, inl, inr}
use bering.Go.Int
use bering.Go.Int.{ℤ}
use bering.Go.Float.{Float, FloatOps, InUnit, IsRounding}

unfoldable pub max_int : ℤ → ℤ → ℤ
max_int left right = if Int.lt right left then left else right

module _ (fl : FloatOps) where
  unfoldable pub clamp01 : Float → Float
  clamp01 value =
      if fl.lt value (fl.decimal 0 0)
      then fl.decimal 0 0
      else if fl.lt (fl.decimal 1 0) value
      then fl.decimal 1 0
      else fl.div (fl.round (fl.mul value (fl.decimal 1000 0))) (fl.decimal 1000 0)

  unfoldable pub max_float : Float → Float → Float
  max_float left right = if fl.lt right left then left else right

  unfoldable pub min_float : Float → Float → Float
  min_float left right = if fl.lt left right then left else right

  unfoldable pub clamp_gap_ema : Float → Float
  clamp_gap_ema value = if fl.lt value (fl.decimal 1 0) then fl.decimal 1 0 else value

module _ (fl : FloatOps) (laws : IsRounding fl) where
  pub clamp01-InUnit : (value : Float) → InUnit fl (clamp01 fl value)
  unfolding clamp01
  clamp01-InUnit value = elim (Bool-cases (fl.lt value (fl.decimal 0 0))) [
    | inl low ↦ rw low laws.zero_InUnit
    | inr not_low ↦ elim (Bool-cases (fl.lt (fl.decimal 1 0) value)) [
      | inl high ↦ rw (not_low, high) laws.one_InUnit
      | inr not_high ↦ rw (not_low, not_high) (laws.round_InUnit value (not_low, not_high))
    ]
  ]
