-- ===== src/Runtime/Lifetime/Closing.antt =====
-- engine.go: `Close` of a batch until shutdown, step by step.
use bering.Prelude.{
  suc, ◌+◌, ◌≤◌, ◌≡◌, refl, ap, true, false, Option, none, some, length, ok, err, arith, Bool-cases,
  inl, inr,
}
use bering.Go.Time.{before}
use bering.Runtime.Types.{EngineError}
use bering.Runtime.Session.{◌then◌, Host, Session, Outcome, fail, continue, modify, clock}
use bering.Runtime.Session.Quiet.{publications}
use bering.Runtime.Flush.{flush_current}
use bering.Runtime.Flush.Chain.{flush_current-IsFlush_forced}
use bering.Runtime.Lifetime.{is_on_shutdown, of_error, end_at, keep_close_err, close_batch, close}

module _ {Value : Type 0} (host : Host Value) where
  -- The session with which `Close` of an open batch goes on.
  abbrev pub marked : Session Value → Session Value
  marked s = record s { engine = record s.engine { closed = true } }

  abbrev ended_at : Session Value → Session Value
  ended_at s =
      let end = host.now s.reads in
      record {
        engine = record s.engine { current = record s.engine.current { end = end } };
        log = s.log;
        reads = suc s.reads;
      }

  -- A flush during `Close` leaves the batch closed and publishes one envelope at most.
  pub record IsFinal (s s' : Session Value) : Type 0 where
    pub cfg : s'.engine.cfg ≡ s.engine.cfg
    pub closed : s'.engine.closed ≡ s.engine.closed
    pub published : length (publications s'.log) ≤ length (publications s.log) + 1

  forced-IsFinal : (s : Session Value) → IsFinal s (flush_current host true s).1
  forced-IsFinal s =
      let (f, window) = flush_current-IsFlush_forced host s in
      record {
        cfg = f.cfg;
        closed = f.closed;
        published = elim (f.outcome) [
          | inl quiet ↦ ground (arith, ap (λ l. length l) (quiet.1))
          | inr p ↦ ground (arith, ap (λ l. length l) p.published)
        ];
      }

  pub close_batch-IsFinal :
      (ended : Option EngineError) (s : Session Value) → IsFinal s (close_batch host ended s).1
  unfolding close_batch fail ◌then◌ continue clock modify end_at
  close_batch-IsFinal (some e) s = record { cfg = refl; closed = refl; published = omega arith }
  close_batch-IsFinal none s =
      elim (Bool-cases (before (host.now s.reads) s.engine.current.start)) [
        | inl early ↦ rw early (record { cfg = refl; closed = refl; published = omega arith })
        | inr late ↦ rw late (
            let f = forced-IsFinal (ended_at s) in
            record { cfg = f.cfg; closed = f.closed; published = f.published })
      ]

  pub keep_close_err-IsFinal :
      (s : Session Value) (outcome : Outcome Value Unit)
      → IsFinal s outcome.1
      → IsFinal s (keep_close_err host outcome).1
  unfolding keep_close_err
  keep_close_err-IsFinal s (ok u, s') h = record {
    cfg = h.cfg;
    closed = h.closed;
    published = h.published;
  }
  keep_close_err-IsFinal s (err e, s') h = record {
    cfg = h.cfg;
    closed = h.closed;
    published = h.published;
  }

  pub close_open :
      (s : Session Value)
      → is_on_shutdown s.engine.cfg ≡ true
      → s.engine.closed ≡ false
      → close host s ≡ keep_close_err host (close_batch host s.engine.terminal_err (marked s))
  unfolding close
  close_open s mode opened = rw (mode, opened) refl

  pub close_closed :
      (s : Session Value)
      → is_on_shutdown s.engine.cfg ≡ true
      → s.engine.closed ≡ true
      → close host s ≡ (of_error s.engine.close_err, s)
  unfolding close
  close_closed s mode over = rw (mode, over) refl

  pub keep_close_err_lem :
      (outcome : Outcome Value Unit)
      → let after = keep_close_err host outcome in
        (of_error after.1.engine.close_err, after.1) ≡ after
  unfolding keep_close_err of_error
  keep_close_err_lem (ok u, s) = refl
  keep_close_err_lem (err e, s) = refl
