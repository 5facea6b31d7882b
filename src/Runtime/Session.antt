-- ===== src/Runtime/Session.antt =====
-- internal/runtime/engine.go: the engine beside what it has written, and calls that may fail in the
-- middle. What the engine takes from outside is the host.
pub mod Quiet
use bering.Prelude.{
  ℕ, suc, String, Bool, Option, none, some, List, ◌∷◌, if◌then◌else◌, Result, ok, err,
}
use bering.Go.Int.{ℤ}
use bering.Go.Float.{FloatOps}
use bering.Go.Time.{Time}
use bering.Model.Types.{ResilienceModel, SchemaRef}
use bering.Snapshot.Types.{SourceSummary, Envelope}
use bering.Snapshot.Diff.{DeepEqual}
use bering.Discovery.Types as Discovery
use bering.Reconciliation.Types.{PersistedState, ProjectionName, Report}
use bering.Reconciliation.Projection.{External}
use bering.Runtime.Types.{Span, EngineError, Engine}

-- `ProjectionView` of sink.go.
pub record ProjectionView : Type 0 where
  pub name : ProjectionName
  pub observation : ℤ
  pub structural_version : ℤ
  pub available : Bool
  pub topology_version : String
  pub snapshot : Option Envelope

-- What the engine hands to the sink or writes to a file; a view goes with its quality report.
pub data Output : Type 0 where
  published : Envelope → Output
  reported : String → Report → Output
  summarized : String → Report → Output
  viewed : String → ProjectionView → Output

-- The options of a discovery that depend on the window.
pub record Options : Type 0 where
  pub source_ref : String
  pub discovered_at : String
  pub sources : List SourceSummary
  pub runtime_mode : Bool

-- The machine's arithmetic and `reflect.DeepEqual`; what the reconciler takes from outside; the
-- constants of the snapshot schema; the n-th reading of the clock; whether an output is accepted
-- and a state file saved after what was written before; the discovery with the overlays of the
-- engine; the SHA-256 digest of a model's canonical JSON; and the first 12 bytes, in hexadecimal, of
-- a text's SHA-256.
pub record Host (Value : Type 0) : Type 0 where
  pub float : FloatOps
  pub equal : DeepEqual
  pub external : External
  pub schema : SchemaRef
  pub now : ℕ → Time
  pub accepts : List Output → Output → Bool
  pub save : List Output → String → PersistedState → Bool
  pub discover : List (Span Value) → Options → Option Discovery.Result
  pub topology_digest : ResilienceModel → Option String
  pub short_digest : String → String

-- The engine, what was written, the last first, and how often the clock was read.
pub record Session (Value : Type 0) : Type 0 where
  pub engine : Engine Value
  pub log : List Output
  pub reads : ℕ

-- A call on the engine: what it returns, and the session after it, also where it fails.
abbrev pub Outcome : Type 0 → Type 0 → Type 0
Outcome Value A = Result EngineError A × Session Value

abbrev pub Call : Type 0 → Type 0 → Type 0
Call Value A = Session Value → Outcome Value A

module _ {Value : Type 0} where
  module _ {A : Type 0} where
    unfoldable pub return : A → Call Value A
    return a s = (ok a, s)

    unfoldable pub fail : EngineError → Call Value A
    fail e s = (err e, s)

  module _ {A B : Type 0} where
    unfoldable pub continue : Outcome Value A → (A → Call Value B) → Outcome Value B
    continue (ok a, s) next = next a s
    continue (err e, s) next = (err e, s)

    -- `if err != nil { return err }` between two calls.
    infixl 5 ◌then◌
    unfoldable pub ◌then◌ : Call Value A → (A → Call Value B) → Call Value B
    unfolding continue
    (call then next) s = continue (call s) next

  -- A change of the engine's fields.
  unfoldable pub modify : (Engine Value → Engine Value) → Call Value Unit
  modify change s = (ok tt, record s { engine = change s.engine })

  unfoldable pub read : Call Value (Engine Value)
  read s = (ok s.engine, s)

  unfoldable pub required : {A : Type 0} → EngineError → Option A → Call Value A
  unfolding return fail
  required e none = fail e
  required e (some a) = return a

  module _ (host : Host Value) where
    -- `e.cfg.Now()`
    unfoldable pub clock : Call Value Time
    clock s = (ok (host.now s.reads), record s { reads = suc s.reads })

    unfoldable pub write : EngineError → Output → Call Value Unit
    write e output s =
        if host.accepts s.log output then (ok tt, record s { log = output ∷ s.log }) else (err e, s)

    unfoldable pub write_unless : Bool → EngineError → Output → Call Value Unit
    unfolding return write
    write_unless skipped e output = if skipped then return tt else write e output
