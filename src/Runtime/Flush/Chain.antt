-- ===== src/Runtime/Flush/Chain.antt =====
-- engine.go: the chain of the published envelopes, each compared with the one before it.
use bering.Prelude.{
  ◌≡◌, refl, sym, ap, ◌∙◌, subst, Bool, true, false, ◌&&◌, not, Option, none, some, List, [], ◌∷◌,
  ok, Bool-cases, inl, inr, ◌⊎◌, is_empty,
}
use bering.Go.Map.{is_some}
use bering.Snapshot.Types.{Envelope}
use bering.Runtime.Session.{◌then◌, Host, Session, continue, modify, return}
use bering.Runtime.Session.Quiet.{publications}
use bering.Runtime.Publish.{flush_window}
use bering.Runtime.Publish.Outcome.{IsCompared, IsPublishing, IsUnpublished, Once}
use bering.Runtime.Publish.Once.{flush_window-Once}
use bering.Runtime.Flush.{next_window, flush_current}

-- The last published envelope.
abbrev pub last_published : List Envelope → Option Envelope
last_published [] = none
last_published (env ∷ envs) = some env

module _ {Value : Type 0} (host : Host Value) where
  abbrev pub AllCompared : List Envelope → Type 0
  AllCompared [] = Unit
  AllCompared (env ∷ envs) = IsCompared host (last_published envs) env × AllCompared envs

  -- The previous envelope is the last published one, and each published one was compared with the
  -- one published before it.
  pub record IsChained (s : Session Value) : Type 0 where
    pub previous : s.engine.previous ≡ last_published (publications s.log)
    pub compared : AllCompared (publications s.log)

  -- What a flush leaves of the engine, and what it publishes.
  pub record IsFlush (s s' : Session Value) : Type 0 where
    pub cfg : s'.engine.cfg ≡ s.engine.cfg
    pub closed : s'.engine.closed ≡ s.engine.closed
    pub terminal_err : s'.engine.terminal_err ≡ s.engine.terminal_err
    pub outcome : IsUnpublished host s s' ⊎ IsPublishing host s.engine.previous s s'

  IsPublishing-IsChained :
      (s s' : Session Value) → IsPublishing host s.engine.previous s s' → IsChained s → IsChained s'
  IsPublishing-IsChained s s' p h = record {
    previous = p.kept ∙ sym (ap last_published p.published);
    compared =
        subst AllCompared (sym p.published)
          (subst (λ previous. IsCompared host previous p.env) h.previous p.compared, h.compared);
  }

  -- A flush keeps the chain.
  pub IsFlush-IsChained : (s s' : Session Value) → IsFlush s s' → IsChained s → IsChained s'
  IsFlush-IsChained s s' f h = elim (f.outcome) [
    | inl quiet ↦ record {
      previous = quiet.0 ∙ h.previous ∙ sym (ap last_published quiet.1);
      compared = subst AllCompared (sym quiet.1) h.compared;
    }
    | inr p ↦ IsPublishing-IsChained s s' p h
  ]

  abbrev moved : Session Value → Session Value
  moved s = record s { engine = next_window s.engine }

  abbrev is_idle : Session Value → Bool
  is_idle s = is_empty s.engine.current.spans && not (is_some s.engine.reconciler)

  flush_window-IsFlush :
      (s : Session Value)
      → let s' = (flush_window host s.engine (moved s)).1 in
        IsFlush s s' × (s'.engine.current ≡ (next_window s.engine).current)
  unfolding next_window Once
  flush_window-IsFlush s =
      let once = flush_window-Once host s.engine (moved s) in
      (
        record {
          cfg = once.frame.cfg;
          closed = once.frame.closed;
          terminal_err = once.frame.terminal_err;
          outcome = elim (once.outcome) [
            | inl quiet ↦ inl quiet
            | inr p ↦ inr (record {
              env = p.env;
              compared = p.compared;
              kept = p.kept;
              published = p.published;
            })
          ];
        },
        once.frame.current,
      )

  flush_busy :
      (force : Bool) (s : Session Value)
      → is_idle s ≡ false
      → flush_current host force s ≡ flush_window host s.engine (moved s)
  unfolding flush_current ◌then◌ continue modify
  flush_busy force s h = rw h refl

  flush_idle :
      (s : Session Value) → is_idle s ≡ true → flush_current host false s ≡ (ok tt, moved s)
  unfolding flush_current modify
  flush_idle s h = rw h refl

  flush_forced_idle :
      (s : Session Value) → is_idle s ≡ true → flush_current host true s ≡ (ok tt, s)
  unfolding flush_current return
  flush_forced_idle s h = rw h refl

  -- A flush that is due replaces the window by the next one.
  pub flush_current-IsFlush :
      (s : Session Value)
      → let s' = (flush_current host false s).1 in
        IsFlush s s' × (s'.engine.current ≡ (next_window s.engine).current)
  unfolding next_window
  flush_current-IsFlush s = elim (Bool-cases (is_idle s)) [
    | inl idle ↦ rw (flush_idle s idle) (
      record { cfg = refl; closed = refl; terminal_err = refl; outcome = inl (refl, refl) },
      refl,
    )
    | inr busy ↦ rw (flush_busy false s busy) (flush_window-IsFlush s)
  ]

  -- A flush that is forced keeps a window without spans, and replaces another by the next one.
  pub flush_current-IsFlush_forced :
      (s : Session Value)
      → let s' = (flush_current host true s).1 in
        IsFlush s s'
        × ((s'.engine.current ≡ s.engine.current)
            ⊎ (s'.engine.current ≡ (next_window s.engine).current))
  flush_current-IsFlush_forced s = elim (Bool-cases (is_idle s)) [
    | inl idle ↦ rw (flush_forced_idle s idle) (
      record { cfg = refl; closed = refl; terminal_err = refl; outcome = inl (refl, refl) },
      inl refl,
    )
    | inr busy ↦
        rw (flush_busy true s busy) ((flush_window-IsFlush s).0, inr (flush_window-IsFlush s).1)
  ]
