-- ===== src/Runtime/Session/Quiet.antt =====
-- engine.go: the calls that publish nothing and leave the window and the batch alone.
use bering.Prelude.{
  ◌≡◌, refl, ◌∙◌, Bool, true, false, Option, none, some, List, [], ◌∷◌, ok, err, Bool-cases, inl,
  inr,
}
use bering.Snapshot.Types.{Envelope}
use bering.Runtime.Types.{EngineError, Engine}
use bering.Runtime.Session.{
  Output, published, reported, summarized, viewed, Host, Session, Call, Outcome, return, fail,
  continue, ◌then◌, modify, required, clock, write_unless, write,
}

-- The envelopes that the sink accepted, the last first.
abbrev pub publications : List Output → List Envelope
publications [] = []
publications (published env ∷ log) = env ∷ publications log
publications (reported path report ∷ log) = publications log
publications (summarized path report ∷ log) = publications log
publications (viewed path view ∷ log) = publications log

abbrev pub is_published : Output → Bool
is_published (published env) = true
is_published (reported path report) = false
is_published (summarized path report) = false
is_published (viewed path view) = false

pub publications-cons :
    (output : Output) (log : List Output)
    → is_published output ≡ false
    → publications (output ∷ log) ≡ publications log
publications-cons (published env) log h = cc
publications-cons (reported path report) log h = refl
publications-cons (summarized path report) log h = refl
publications-cons (viewed path view) log h = refl

-- What such a call leaves of the engine.
pub record IsFramed {Value : Type 0} (e e' : Engine Value) : Type 0 where
  pub cfg : e'.cfg ≡ e.cfg
  pub current : e'.current ≡ e.current
  pub closed : e'.closed ≡ e.closed
  pub close_err : e'.close_err ≡ e.close_err
  pub terminal_err : e'.terminal_err ≡ e.terminal_err

pub record IsQuiet {Value : Type 0} (s s' : Session Value) : Type 0 where
  pub frame : IsFramed s.engine s'.engine
  pub previous : s'.engine.previous ≡ s.engine.previous
  pub published : publications s'.log ≡ publications s.log

module _ {Value : Type 0} where
  pub IsFramed-refl : (e : Engine Value) → IsFramed e e
  IsFramed-refl e = record {
    cfg = refl;
    current = refl;
    closed = refl;
    close_err = refl;
    terminal_err = refl;
  }

  pub IsFramed-trans : {e e' e'' : Engine Value} → IsFramed e e' → IsFramed e' e'' → IsFramed e e''
  IsFramed-trans f g = record {
    cfg = g.cfg ∙ f.cfg;
    current = g.current ∙ f.current;
    closed = g.closed ∙ f.closed;
    close_err = g.close_err ∙ f.close_err;
    terminal_err = g.terminal_err ∙ f.terminal_err;
  }

  pub IsQuiet-refl : (s : Session Value) → IsQuiet s s
  IsQuiet-refl s = record { frame = IsFramed-refl s.engine; previous = refl; published = refl }

  pub IsQuiet-trans : {s s' s'' : Session Value} → IsQuiet s s' → IsQuiet s' s'' → IsQuiet s s''
  IsQuiet-trans f g = record {
    frame = IsFramed-trans f.frame g.frame;
    previous = g.previous ∙ f.previous;
    published = g.published ∙ f.published;
  }

  unfoldable pub Silent : {A : Type 0} → Call Value A → Type 0
  Silent call = (s : Session Value) → IsQuiet s (call s).1

pub return-Silent : (Value : Type 0) {A : Type 0} (a : A) → Silent (return {Value = Value} a)
unfolding return Silent
return-Silent Value a s = IsQuiet-refl s

pub required-Silent :
    (Value : Type 0) {A : Type 0} (e : EngineError) (o : Option A)
    → Silent (required {Value = Value} e o)
unfolding required return fail Silent
required-Silent Value e none s = IsQuiet-refl s
required-Silent Value e (some a) s = IsQuiet-refl s

module _ {Value : Type 0} where
  pub modify-Silent :
      (change : Engine Value → Engine Value)
      → ((e : Engine Value) → IsFramed e (change e) × ((change e).previous ≡ e.previous))
      → Silent (modify change)
  unfolding modify Silent
  modify-Silent change h s = record {
    frame = (h s.engine).0;
    previous = (h s.engine).1;
    published = refl;
  }

  module _ {A B : Type 0} where
    continue-IsQuiet :
        (s : Session Value) (outcome : Outcome Value A) (next : A → Call Value B)
        → IsQuiet s outcome.1
        → ((a : A) → Silent (next a))
        → IsQuiet s (continue outcome next).1
    unfolding continue Silent
    continue-IsQuiet s (ok a, s') next h k = IsQuiet-trans h (k a s')
    continue-IsQuiet s (err e, s') next h k = h

    pub then-Silent :
        (call : Call Value A) (next : A → Call Value B)
        → Silent call
        → ((a : A) → Silent (next a))
        → Silent (call then next)
    unfolding ◌then◌ Silent
    then-Silent call next h k s = continue-IsQuiet s (call s) next (h s) k

  module _ (host : Host Value) where
    pub clock-Silent : Silent (clock host)
    unfolding clock Silent
    clock-Silent s = record { frame = IsFramed-refl s.engine; previous = refl; published = refl }

    write-Silent :
        (e : EngineError) (output : Output)
        → is_published output ≡ false
        → Silent (write host e output)
    unfolding write Silent
    write-Silent e output h s = elim (Bool-cases (host.accepts s.log output)) [
      | inl accepted ↦ rw accepted (record {
        frame = IsFramed-refl s.engine;
        previous = refl;
        published = publications-cons output s.log h;
      })
      | inr refused ↦ rw refused (IsQuiet-refl s)
    ]

    pub write_unless-Silent :
        (skipped : Bool) (e : EngineError) (output : Output)
        → is_published output ≡ false
        → Silent (write_unless host skipped e output)
    unfolding write_unless
    write_unless-Silent true e output h = return-Silent Value tt
    write_unless-Silent false e output h = write-Silent e output h
