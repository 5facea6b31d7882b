-- ===== src/Runtime/Flush.antt =====
-- internal/runtime/engine.go: `alignWindow`, `newWindow`, `flushCurrent` and `flushDueLocked`. The
-- locks are not modelled: a call runs alone. The metrics and the logs are not modelled either.
pub mod Chain
pub mod Due
use bering.Prelude.{
  ℕ, zero, suc, ◌-◌, ◌%◌, Bool, false, ◌&&◌, not, Option, none, some, [], is_empty, if◌then◌else◌,
  ok, err, eqb,
}
use bering.Go.Int.{ℤ, pos, negsuc, pos_part, ◌+ℤ◌}
use bering.Go.Map.{is_some}
use bering.Go.Time.{Time, before}
use bering.Runtime.Types.{WindowState, Engine}
use bering.Runtime.Session.{Outcome, Host, Session, Call, return, ◌then◌, modify}
use bering.Runtime.Publish.{flush_window}

-- `t.Truncate(d)`, to a multiple of the duration since the zero time.
unfoldable pub truncate : Time → ℤ → Time
truncate t (pos d) = if eqb d 0 then t else t - t % d
truncate t (negsuc d) = t

-- `t.Add(d)`
unfoldable pub add_duration : Time → ℤ → Time
unfolding ◌+ℤ◌
add_duration t d = pos_part (pos t +ℤ d)

unfoldable pub align_window : Time → ℤ → Time × Time
unfolding truncate add_duration
align_window now size = let start = truncate now size in (start, add_duration start size)

module _ {Value : Type 0} where
  unfoldable pub window_from : Time → Time → WindowState Value
  window_from start end = record {
    start = start;
    end = end;
    spans = [];
    traces = [];
    sources = [];
    dropped = pos 0;
    late = pos 0;
  }

  unfoldable pub new_window : Time → ℤ → WindowState Value
  unfolding add_duration window_from
  new_window start size = window_from start (add_duration start size)

  -- `e.current = newWindow(current.end, e.cfg.WindowSize)`
  unfoldable pub next_window : Engine Value → Engine Value
  unfolding new_window
  next_window e = record e { current = new_window e.current.end e.cfg.window_size }

  module _ (host : Host Value) where
    unfoldable pub flush_current : Bool → Call Value Unit
    unfolding next_window
    flush_current force s =
        let e = s.engine in
        if is_empty e.current.spans && not (is_some e.reconciler)
        then (if force then return tt s else modify next_window s)
        else (modify next_window then λ _. flush_window host e) s

    -- `if err != nil { return err }`, else the next round.
    unfoldable pub unless_failed :
        Outcome Value Unit → Option (Outcome Value Unit) → Option (Outcome Value Unit)
    unless_failed (ok u, s) next = next
    unless_failed (err e, s) next = some (err e, s)

    -- The loop of `flushDueLocked`, on fuel.
    unfoldable pub flush_due_loop : ℕ → Time → Session Value → Option (Outcome Value Unit)
    unfolding unless_failed
    flush_due_loop zero now s = none
    flush_due_loop (suc fuel) now s =
        let flushed = flush_current false s in
        let rest = flush_due_loop fuel now flushed.1 in
        if before now s.engine.current.end then some (ok tt, s) else unless_failed flushed rest

    -- `flushDueLocked`. Each round moves the end of the window on, so this fuel is enough.
    unfoldable pub flush_due : Time → Session Value → Option (Outcome Value Unit)
    flush_due now s = flush_due_loop (suc (suc (now - s.engine.current.end))) now s
