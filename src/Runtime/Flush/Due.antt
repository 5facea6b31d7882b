-- ===== src/Runtime/Flush/Due.antt =====
-- engine.go: `flushDueLocked`, its end and the window that it ends with.
use bering.Prelude.{
  ℕ, zero, suc, ◌+◌, ◌-◌, ◌*◌, ◌≤◌, ◌<◌, ◌≡◌, refl, sym, ap, ◌∙◌, subst, false, Option, some, [],
  ok, err, arith, Bool-cases, inl, inr, ◌⊎◌,
}
use bering.Go.Int.{◌+ℤ◌, pos}
use bering.Go.Time.{Time, before}
use bering.Runtime.Types.{WindowState}
use bering.Runtime.Session.{Host, Session, Outcome}
use bering.Runtime.Flush.{
  add_duration, new_window, next_window, window_from, flush_current, flush_due_loop, flush_due,
  unless_failed,
}
use bering.Runtime.Flush.Chain.{IsChained, IsFlush-IsChained, flush_current-IsFlush}

pub add_duration-pos : (t : Time) (n : ℕ) → add_duration t (pos n) ≡ t + n
unfolding add_duration ◌+ℤ◌
add_duration-pos t n = ground arith

module _ {Value : Type 0} where
  -- An empty window of the size, some windows after the end of another, that starts by `now`.
  pub record IsLater (size : ℕ) (now : Time) (w w' : WindowState Value) : Type 0 where
    pub steps : ℕ
    pub start : w'.start ≡ w.end + steps * size
    pub end : w'.end ≡ w'.start + size
    pub reached : w'.start ≤ now
    pub spans : w'.spans ≡ []

  module _ (host : Host Value) where
    -- The engine after the loop: its window is the same or a later one, its settings are the same,
    -- and the chain of what it published goes on.
    pub record IsAdvanced (size : ℕ) (now : Time) (s s' : Session Value) : Type 0 where
      pub cfg : s'.engine.cfg ≡ s.engine.cfg
      pub closed : s'.engine.closed ≡ s.engine.closed
      pub terminal_err : s'.engine.terminal_err ≡ s.engine.terminal_err
      pub chained : IsChained host s → IsChained host s'
      pub window :
          (s'.engine.current ≡ s.engine.current)
          ⊎ IsLater size now s.engine.current s'.engine.current

    -- The loop returned: without an error the window ends after `now`.
    pub record Returns (size : ℕ) (now : Time) (s : Session Value)
        (result : Option (Outcome Value Unit)) : Type 0 where
      pub outcome : Outcome Value Unit
      pub returned : result ≡ some outcome
      pub current : outcome.0 ≡ ok tt → now < outcome.1.engine.current.end
      pub advanced : IsAdvanced size now s outcome.1

    module _ (size : ℕ) (now : Time) where
      IsAdvanced-refl : (s : Session Value) → IsAdvanced size now s s
      IsAdvanced-refl s = record {
        cfg = refl;
        closed = refl;
        terminal_err = refl;
        chained = λ h. h;
        window = inl refl;
      }

      -- One round of the loop.
      flush-IsAdvanced :
          (s : Session Value)
          → s.engine.cfg.window_size ≡ pos size
          → s.engine.current.end ≤ now
          → let s' = (flush_current host false s).1 in
            IsAdvanced size now s s'
            × (s'.engine.current.end ≡ s.engine.current.end + size)
            × IsLater size now s.engine.current s'.engine.current
      unfolding next_window new_window window_from
      flush-IsAdvanced s sized due =
          let s' = (flush_current host false s).1 in
          let (f, moved) = flush_current-IsFlush host s in
          let start : s'.engine.current.start ≡ s.engine.current.end = ap (λ w. w.start) moved in
          let end : s'.engine.current.end ≡ s.engine.current.end + size =
            ap (λ w. w.end) moved
            ∙ ap (λ d. add_duration s.engine.current.end d) sized
            ∙ add_duration-pos s.engine.current.end size in
          let later : IsLater size now s.engine.current s'.engine.current = record {
            steps = 0;
            start = omega (arith, start);
            end = omega (arith, start, end);
            reached = omega (arith, start, due);
            spans = ap (λ w. w.spans) moved;
          } in
          (
            record {
              cfg = f.cfg;
              closed = f.closed;
              terminal_err = f.terminal_err;
              chained = IsFlush-IsChained host s s' f;
              window = inr later;
            },
            end,
            later,
          )

      IsLater-trans :
          (w w' w'' : WindowState Value)
          → IsLater size now w w'
          → IsLater size now w' w''
          → IsLater size now w w''
      IsLater-trans w w' w'' h k = record {
        steps = h.steps + 1 + k.steps;
        start = ground (arith, h.start, h.end, k.start);
        end = k.end;
        reached = k.reached;
        spans = k.spans;
      }

      IsAdvanced-trans :
          (s s' s'' : Session Value)
          → IsAdvanced size now s s'
          → IsLater size now s.engine.current s'.engine.current
          → IsAdvanced size now s' s''
          → IsAdvanced size now s s''
      IsAdvanced-trans s s' s'' h later k = record {
        cfg = k.cfg ∙ h.cfg;
        closed = k.closed ∙ h.closed;
        terminal_err = k.terminal_err ∙ h.terminal_err;
        chained = λ c. k.chained (h.chained c);
        window = elim (k.window) [
          | inl same ↦ inr (subst (λ w. IsLater size now s.engine.current w) (sym same) later)
          | inr further ↦
              inr
                (IsLater-trans s.engine.current s'.engine.current s''.engine.current later further)
        ];
      }

      -- After a round the loop goes on, or ends with the error of the flush.
      round-Returns :
          (s : Session Value) (flushed : Outcome Value Unit) (rest : Option (Outcome Value Unit))
          → IsAdvanced size now s flushed.1
          → IsLater size now s.engine.current flushed.1.engine.current
          → Returns size now flushed.1 rest
          → Returns size now s (unless_failed host flushed rest)
      unfolding unless_failed
      round-Returns s (ok u, s') rest h later r = record {
        outcome = r.outcome;
        returned = r.returned;
        current = r.current;
        advanced = IsAdvanced-trans s s' r.outcome.1 h later r.advanced;
      }
      round-Returns s (err e, s') rest h later r = record {
        outcome = (err e, s');
        returned = refl;
        current = λ succeeded. cc;
        advanced = h;
      }

      loop-Returns :
          (fuel : ℕ) (s : Session Value)
          → s.engine.cfg.window_size ≡ pos size
          → 1 ≤ size
          → 1 ≤ fuel
          → now + 1 < s.engine.current.end + fuel
          → Returns size now s (flush_due_loop host fuel now s)
      unfolding flush_due_loop
      loop-Returns zero s sized positive some_fuel enough = ground (arith, some_fuel)
      loop-Returns (suc fuel) s sized positive some_fuel enough =
          elim (Bool-cases (before now s.engine.current.end)) [
            | inl over ↦ rw over (record {
              outcome = (ok tt, s);
              returned = refl;
              current = λ succeeded. ground (arith, over);
              advanced = IsAdvanced-refl s;
            })
            | inr due ↦ rw due (
                let due' : s.engine.current.end ≤ now = ground (arith, due) in
                let (h, end, later) = flush-IsAdvanced s sized due' in
                let s' = (flush_current host false s).1 in
                round-Returns s (flush_current host false s) (flush_due_loop host fuel now s') h
                  later
                  (loop-Returns fuel s' (ap (λ c. c.window_size) h.cfg ∙ sized) positive
                    (omega (arith, enough, due')) (omega (arith, enough, end, positive))))
          ]

      -- The loop that flushes the windows that are due returns, if the window size is positive:
      -- with the error of a flush, or with a window that ends after `now`; the window is the one that
      -- it began with, or an empty one that starts a whole number of windows after the end of that one
      -- and by `now`; and the chain of the published envelopes goes on.
      pub flush_due-Returns :
          (s : Session Value)
          → s.engine.cfg.window_size ≡ pos size
          → 1 ≤ size
          → Returns size now s (flush_due host now s)
      unfolding flush_due
      flush_due-Returns s sized positive =
          loop-Returns (suc (suc (now - s.engine.current.end))) s sized positive (omega arith)
            (omega arith)
