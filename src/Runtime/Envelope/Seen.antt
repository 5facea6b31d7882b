-- ===== src/Runtime/Envelope/Seen.antt =====
-- engine.go: the first and the last time that a record was seen, over two envelopes.
use bering.Prelude.{◌-◌, ◌%◌, ◌≤◌, ◌≡◌, String, some, arith, Bool-cases, inl, inr}
use bering.Go.Time.{Time, Rfc3339, before, second}
use bering.Runtime.Envelope.{
  parse_seen_time, merge_first_seen, merge_last_seen, first_seen_of, last_seen_of,
}

floor_monotone : (a b : Time) → a ≤ b → a - a % second ≤ b - b % second
floor_monotone a b h = omega (arith, h)

module _ (clock : Rfc3339) where
  -- A printed moment is read as the whole seconds of it.
  abbrev pub IsRead : Time → Type 0
  IsRead t = parse_seen_time clock (clock.format t) ≡ some (t - t % second)

  -- What is read of a merged time.
  pub record IsEarliest (p c : Time) (text : String) : Type 0 where
    pub moment : Time
    pub reads : parse_seen_time clock text ≡ some moment
    pub bounds : (moment ≤ p) × (moment ≤ c)

  pub record IsLatest (p c : Time) (text : String) : Type 0 where
    pub moment : Time
    pub reads : parse_seen_time clock text ≡ some moment
    pub bounds : (p - p % second ≤ moment) × (c - c % second ≤ moment)

  first_seen_of-IsEarliest :
      (p c : Time) → IsRead p → IsRead c → IsEarliest p c (first_seen_of clock (some p) (some c))
  unfolding first_seen_of
  first_seen_of-IsEarliest p c hp hc = elim (Bool-cases (before p c)) [
    | inl earlier ↦ rw earlier (record {
      moment = p - p % second;
      reads = hp;
      bounds = (omega arith, ground (arith, earlier));
    })
    | inr later ↦ rw later (record {
      moment = c - c % second;
      reads = hc;
      bounds = (ground (arith, later), omega arith);
    })
  ]

  last_seen_of-IsLatest :
      (p c : Time) → IsRead p → IsRead c → IsLatest p c (last_seen_of clock (some p) (some c))
  unfolding last_seen_of
  last_seen_of-IsLatest p c hp hc = elim (Bool-cases (before c p)) [
    | inl later ↦ rw later (record {
      moment = p - p % second;
      reads = hp;
      bounds = (omega arith, floor_monotone c p (ground (arith, later)));
    })
    | inr earlier ↦ rw earlier (record {
      moment = c - c % second;
      reads = hc;
      bounds = (floor_monotone p c (ground (arith, earlier)), omega arith);
    })
  ]

  -- The times that a record carries on are read as whole seconds: the first is at most both moments at
  -- which it was first seen, the last at least the seconds of both at which it was last seen, if what
  -- the clock prints of these moments is read as their seconds.
  pub merge_seen-IsBounded :
      (previous current : String) (p c : Time)
      → parse_seen_time clock previous ≡ some p
      → parse_seen_time clock current ≡ some c
      → IsRead p
      → IsRead c
      → IsEarliest p c (merge_first_seen clock previous current)
        × IsLatest p c (merge_last_seen clock previous current)
  unfolding merge_first_seen merge_last_seen
  merge_seen-IsBounded previous current p c read_p read_c hp hc =
      rw (read_p, read_c) (first_seen_of-IsEarliest p c hp hc, last_seen_of-IsLatest p c hp hc)
