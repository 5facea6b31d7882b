-- ===== src/Go/Time.antt =====
-- Package `time`. A moment is the nanoseconds since Go's zero time; a duration is nanoseconds too.
-- Moments before the year 1 are not modelled. Printing and parsing are a parameter.
use bering.Prelude.{ℕ, String, Bool, Option, eqb, ltb, ◌*◌, if◌then◌else◌}
use bering.Go.Int
use bering.Go.Int.{ℤ, pos, negsuc, ◌-ℤ◌}

abbrev pub Time : Type 0
Time = ℕ

abbrev pub is_zero : Time → Bool
is_zero t = eqb t 0

-- `t.Before(u)`, and `u.After(t)`
abbrev pub before : Time → Time → Bool
before t u = ltb t u

-- `t.Sub(u)`, which saturates at the ends of a 64-bit duration.
unfoldable pub since : Time → Time → ℤ
unfolding ◌-ℤ◌
since t u =
    let d = pos t -ℤ pos u in
    if Int.lt (pos Int.max_int) d
    then pos Int.max_int
    else if Int.lt d (negsuc Int.max_int)
    then negsuc Int.max_int
    else d

abbrev pub second : ℕ
second = 1000000000

-- `time.Unix(0, 0)`: the seconds from the year 1 to the year 1970.
abbrev pub unix_epoch : Time
unix_epoch = 62135596800 * second

-- `t.UTC().Format(time.RFC3339)` and `time.Parse(time.RFC3339, s)`
pub record Rfc3339 : Type 0 where
  pub format : Time → String
  pub parse : String → Option Time
