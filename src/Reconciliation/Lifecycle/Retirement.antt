-- ===== src/Reconciliation/Lifecycle/Retirement.antt =====
-- engine.go: when the end of a window retires an entity, and what it reports.
use bering.Prelude.{
  Option, none, some, Bool-cases, inl, inr, sym, refl, ◌≢◌, ◌≡◌, refl, ◌↔◌, Bool, true, false,
  arith,
}
use bering.Go.Int
use bering.Go.Int.{ℤ, pos}
use bering.Go.Float
use bering.Go.Float.{FloatOps}
use bering.Go.Time.{Time, Rfc3339}
use bering.Reconciliation.Types.{
  Lifecycle, candidate, active, stale, Transition, same_lifecycle, retired, EntityState,
  TelemetryHealth,
}
use bering.Reconciliation.Config.{Config}
use bering.Reconciliation.Lifecycle.Advance.{
  without_opportunity, lifecycle_transition, advance_lifecycle, gap_thresholds, qualified_miss,
  count_miss, penalize, settle,
}

-- A report says nothing exactly of an entity whose lifecycle is the same, and is else its change.
abbrev pub Reports : EntityState → EntityState → Option Transition → Type 0
Reports s s' none = s'.lifecycle ≡ s.lifecycle
Reports s s' (some t) =
    (s'.lifecycle ≢ s.lifecycle)
    × (t.from ≡ s.lifecycle)
    × (t.to ≡ s'.lifecycle)
    × (t.id ≡ s'.id)
    × (t.reason ≡ s'.reason)

same_lifecycle_iff : (a b : Lifecycle) → (same_lifecycle a b ≡ true) ↔ (a ≡ b)
same_lifecycle_iff candidate b = ground arith
same_lifecycle_iff active b = ground arith
same_lifecycle_iff stale b = ground arith
same_lifecycle_iff retired b = ground arith

lifecycle_transition-Reports :
    (s s' : EntityState)
    → Reports s s' (lifecycle_transition s'.kind s'.id s.lifecycle s'.lifecycle s'.reason)
unfolding lifecycle_transition
lifecycle_transition-Reports s s' = elim (Bool-cases (same_lifecycle s.lifecycle s'.lifecycle)) [
  | inl same ↦ rw same (sym ((same_lifecycle_iff s.lifecycle s'.lifecycle).0 same))
  | inr differ ↦ rw differ (
    λ e. cc ((same_lifecycle_iff s.lifecycle s'.lifecycle).1 (sym e), differ),
    refl,
    refl,
    refl,
    refl,
  )
]

module _ (fl : FloatOps) (cfg : Config) (clock : Rfc3339) where
  settle-retired_iff :
      (s : EntityState) (soft hard : ℤ) (health : TelemetryHealth) (now : Time)
      → ((settle fl cfg clock s soft hard health now).lifecycle ≡ retired) ↔ (
          (Int.le hard s.miss_streak ≡ true)
          × (health.retirement_frozen ≡ false)
          × (Float.le fl s.existence_confidence cfg.retirement_existence_threshold ≡ true))
  unfolding settle
  settle-retired_iff s soft hard health now = ground arith

  -- The last switch leaves the confidence of existence alone.
  settle-existence :
      (s : EntityState) (soft hard : ℤ) (health : TelemetryHealth) (now : Time)
      → (settle fl cfg clock s soft hard health now).existence_confidence ≡ s.existence_confidence
  unfolding settle
  settle-existence s soft hard health now = ground arith

  -- The state whose confidences decide: the entity after the counters and the penalties of a miss.
  abbrev pub after_penalty : EntityState → ℤ → Time → TelemetryHealth → EntityState
  after_penalty s version now health =
      penalize fl cfg clock (count_miss fl cfg clock s version) (gap_thresholds fl cfg s).0 health
        now

  thresholds-count_miss :
      (s : EntityState) (version : ℤ)
      → gap_thresholds fl cfg (count_miss fl cfg clock s version) ≡ gap_thresholds fl cfg s
  unfolding gap_thresholds count_miss
  thresholds-count_miss s version = refl

  miss_streak-penalty :
      (s : EntityState) (version : ℤ) (now : Time) (health : TelemetryHealth)
      → (after_penalty s version now health).miss_streak ≡ Int.add s.miss_streak (pos 1)
  unfolding penalize count_miss
  miss_streak-penalty s version now health = refl

  -- A qualified miss: the entity was not seen, though the window had enough opportunities.
  abbrev pub IsMiss : Bool → ℤ → Type 0
  IsMiss observed opportunity =
      (observed ≡ false) × (Int.lt opportunity cfg.minimum_opportunity_observations ≡ false)

  advance-miss :
      (s : EntityState) (version : ℤ) (now : Time) (opportunity : ℤ) (observed : Bool)
      (health : TelemetryHealth)
      → IsMiss observed opportunity
      → (advance_lifecycle fl cfg clock s version now opportunity observed health).0
        ≡ qualified_miss fl cfg clock s version now health
  unfolding advance_lifecycle
  advance-miss s version now opportunity observed health (unseen, enough) = rw (unseen, enough)

  -- A qualified miss retires an entity exactly when the streak that it ends reaches the hard
  -- threshold, retirement is not frozen, and the existence confidence that is left is at most the
  -- retirement threshold.
  pub advance-retires_iff :
      (s : EntityState) (version : ℤ) (now : Time) (opportunity : ℤ) (observed : Bool)
      (health : TelemetryHealth)
      → IsMiss observed opportunity
      → let s' = (advance_lifecycle fl cfg clock s version now opportunity observed health).0 in
        (s'.lifecycle ≡ retired) ↔ (
          (Int.le (gap_thresholds fl cfg s).1 (Int.add s.miss_streak (pos 1)) ≡ true)
          × (health.retirement_frozen ≡ false)
          × (Float.le fl s'.existence_confidence cfg.retirement_existence_threshold ≡ true))
  unfolding qualified_miss
  advance-retires_iff s version now opportunity observed health miss =
      rw (advance-miss s version now opportunity observed health miss) (
        ground (
          arith,
          settle-retired_iff (after_penalty s version now health) (gap_thresholds fl cfg s).0
              (gap_thresholds fl cfg s).1 health now,
          settle-existence (after_penalty s version now health) (gap_thresholds fl cfg s).0
              (gap_thresholds fl cfg s).1 health now,
          thresholds-count_miss s version,
          miss_streak-penalty s version now health,
        ))

  -- While retirement is frozen the end of a window retires no entity that was not retired before.
  pub advance-frozen_ne_retired :
      (s : EntityState) (version : ℤ) (now : Time) (opportunity : ℤ) (observed : Bool)
      (health : TelemetryHealth)
      → health.retirement_frozen ≡ true
      → s.lifecycle ≢ retired
      → (advance_lifecycle fl cfg clock s version now opportunity observed health).0.lifecycle
        ≢ retired
  unfolding advance_lifecycle qualified_miss settle
  advance-frozen_ne_retired s version now opportunity observed health frozen alive = ground arith

  -- The end of a window reports a transition exactly when it changes the lifecycle of the entity, and
  -- it holds the lifecycle before and after, the name of the entity and the reason.
  pub advance-transition :
      (s : EntityState) (version : ℤ) (now : Time) (opportunity : ℤ) (observed : Bool)
      (health : TelemetryHealth)
      → let after = advance_lifecycle fl cfg clock s version now opportunity observed health in
        Reports s after.0 after.1
  unfolding advance_lifecycle
  advance-transition s version now opportunity true health =
      lifecycle_transition-Reports s (record s { reason = "observed in current window" })
  advance-transition s version now opportunity false health =
      elim (Bool-cases (Int.lt opportunity cfg.minimum_opportunity_observations)) [
        | inl few ↦ rw few (lifecycle_transition-Reports s (without_opportunity fl cfg clock s))
        | inr enough ↦
            rw enough
              (lifecycle_transition-Reports s (qualified_miss fl cfg clock s version now health))
      ]
