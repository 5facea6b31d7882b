-- ===== src/Runtime/Adapter/Starts.antt =====
-- reconciliation_adapter.go, service.go and engine.go: an engine is made of a validated
-- configuration.
use bering.Prelude.{
  ◌≡◌, refl, sym, ap, ◌∙◌, subst, String, List, Bool, true, false, Option, none, some, Result, ok,
  arith, Bool-cases, inl, inr, ◌==◌, >>-eq-ok_iff, >>=-returns, if◌then◌else◌,
}
use bering.Go.Float.{FloatOps, IsRounding}
use bering.Go.Text.{trim_space}
use bering.Go.Time.{Time}
use bering.Reconciliation.Types.{PersistedState}
use bering.Reconciliation.Config.{Config, with_defaults, validate}
use bering.Reconciliation.Config.Valid.{IsUsable, validate_iff, with_defaults_idempotent}
use bering.Reconciliation.Process.{Reconciler}
use bering.Reconciliation.State.{NewError, StateFile, load_state, new_reconciler, of_config}
use bering.Config.{
  RuntimeConfig, ServeConfig, validate_serve, validate_runtime, validate_server,
  validate_reconciliation, mode_of, known_policy,
}
use bering.Runtime.Types.{EngineConfig, Engine}
use bering.Runtime.Session.{Host}
use bering.Runtime.Lifetime.{
  with_mode, check_engine_config, reconciler_for, new_engine, is_windowed, is_on_shutdown, of_new,
}
use bering.Runtime.Adapter.{
  MathOps, Paths, adapted, build_runtime_reconciliation_config, engine_config,
}
use bering.Runtime.Adapter.Usable.{IsComparison, adapted-IsUsable}

-- The settings of an engine that the guards of both validations read.
record IsFor (r : RuntimeConfig) (c : EngineConfig) : Type 0 where
  mode : c.publication_mode ≡ mode_of r
  window_size : c.window_size ≡ r.window_size
  spans : c.max_in_memory_spans ≡ r.max_in_memory_spans
  policy : c.late_span_policy ≡ r.late_span_policy
  enabled : c.reconciliation_config.enabled ≡ r.reconciliation.enabled

IsFor-checked :
    (fl : FloatOps) (r : RuntimeConfig) (c : EngineConfig)
    → IsFor r c
    → validate_runtime fl r ≡ ok tt
    → check_engine_config true c ≡ ok tt
unfolding validate_runtime check_engine_config is_windowed is_on_shutdown
IsFor-checked fl r c h passed =
    ground (arith, passed, h.mode, h.window_size, ap known_policy h.policy, h.spans, h.enabled)

module _ (fl : FloatOps) (math : MathOps) (paths : Paths) where
  engine_config-IsFor :
      (cfg : ServeConfig) → IsFor cfg.runtime (with_mode (engine_config fl math paths cfg))
  unfolding with_mode engine_config mode_of build_runtime_reconciliation_config with_defaults
      adapted
  engine_config-IsFor cfg = elim (Bool-cases (cfg.runtime.publication_mode == "")) [
    | inl unset ↦ rw unset (record {
      mode = rw unset refl;
      window_size = refl;
      spans = refl;
      policy = refl;
      enabled = refl;
    })
    | inr set ↦ rw set (record {
      mode = rw set refl;
      window_size = refl;
      spans = refl;
      policy = refl;
      enabled = refl;
    })
  ]

  -- The configuration of the reconciler is accepted.
  reconciler-IsAccepted :
      (cfg : ServeConfig)
      → IsRounding fl
      → IsComparison fl
      → validate_reconciliation fl cfg.runtime.reconciliation ≡ ok tt
      → validate fl (with_defaults fl (build_runtime_reconciliation_config fl math paths.state cfg))
        ≡ ok tt
  unfolding build_runtime_reconciliation_config
  reconciler-IsAccepted cfg rounding laws passed =
      let given = adapted fl math paths.state cfg in
      let once = with_defaults_idempotent fl rounding given in
      (validate_iff fl (with_defaults fl (with_defaults fl given))).1 (
        subst (IsUsable fl) (sym (ap (with_defaults fl) once ∙ once))
          (adapted-IsUsable fl math paths.state cfg rounding laws passed))

validate_serve_lem :
    (fl : FloatOps) (cfg : ServeConfig)
    → validate_serve fl cfg ≡ ok tt
    → (validate_runtime fl cfg.runtime ≡ ok tt)
      × (validate_reconciliation fl cfg.runtime.reconciliation ≡ ok tt)
unfolding validate_serve
validate_serve_lem fl cfg passed =
    let (server, rest) = (>>-eq-ok_iff (validate_server fl cfg.server) _).0 passed in
    let (runtime, rest') = (>>-eq-ok_iff (validate_runtime fl cfg.runtime) _).0 rest in
    (runtime, ((>>-eq-ok_iff (validate_reconciliation fl cfg.runtime.reconciliation) _).0 rest').0)

-- What is read of the state file.
abbrev pub IsReadable : FloatOps → (String → StateFile) → String → Type 0
IsReadable fl read path =
    (loaded : PersistedState × List String) × (load_state fl read path ≡ ok loaded)

new_reconciler-ok :
    (fl : FloatOps) (read : String → StateFile) (given : Config)
    → validate fl (with_defaults fl given) ≡ ok tt
    → IsReadable fl read (trim_space (with_defaults fl given).state_path)
    → (r : Reconciler) × (new_reconciler fl read given ≡ ok r)
unfolding new_reconciler
new_reconciler-ok fl read given accepted (loaded, found) =
    let cfg = with_defaults fl given in
    >>=-returns (of_config fl read (validate fl cfg)) _ (ap (of_config fl read) accepted)
      (>>=-returns (load_state fl read (trim_space cfg.state_path)) _ found (_, refl))

made_if_enabled :
    (enabled : Bool) (made : Result NewError Reconciler)
    → (r : Reconciler) × (made ≡ ok r)
    → (r : Option Reconciler) × ((if enabled then of_new made else ok none) ≡ ok r)
unfolding of_new
made_if_enabled true made (r, h) = (some r, ap of_new h)
made_if_enabled false made (r, h) = (none, refl)

module _ {Value : Type 0} (host : Host Value) (math : MathOps) (paths : Paths) where
  abbrev settings : ServeConfig → EngineConfig
  settings cfg = engine_config host.float math paths cfg

  reconciler_for-ok :
      (read : String → StateFile) (c : EngineConfig)
      → validate host.float (with_defaults host.float c.reconciliation_config) ≡ ok tt
      → IsReadable host.float read
          (trim_space (with_defaults host.float c.reconciliation_config).state_path)
      → (r : Option Reconciler) × (reconciler_for host read c ≡ ok r)
  unfolding reconciler_for
  reconciler_for-ok read c accepted readable =
      made_if_enabled c.reconciliation_config.enabled _
        (new_reconciler-ok host.float read c.reconciliation_config accepted readable)

  same_reconciliation :
      (cfg : ServeConfig)
      → (with_mode (settings cfg)).reconciliation_config
        ≡ build_runtime_reconciliation_config host.float math paths.state cfg
  unfolding with_mode engine_config
  same_reconciliation cfg = elim (Bool-cases (cfg.runtime.publication_mode == "")) [
    | inl unset ↦ rw unset refl
    | inr set ↦ rw set refl
  ]

  -- `NewEngine` makes an engine of the settings of every configuration file that `Validate` accepts,
  -- if the state file of the reconciler can be read and the arithmetic meets its laws.
  pub new_engine-ok :
      (read : String → StateFile) (now : Time) (cfg : ServeConfig)
      → IsRounding host.float
      → IsComparison host.float
      → validate_serve host.float cfg ≡ ok tt
      → IsReadable host.float read (
          trim_space
            (with_defaults host.float
              (build_runtime_reconciliation_config host.float math paths.state cfg)).state_path)
      → (e : Engine Value) × (new_engine host read true now (settings cfg) ≡ ok e)
  unfolding new_engine
  new_engine-ok read now cfg rounding laws passed readable =
      let c = with_mode (settings cfg) in
      let (runtime, reconciliation) = validate_serve_lem host.float cfg passed in
      let checked =
        IsFor-checked host.float cfg.runtime c (engine_config-IsFor host.float math paths cfg)
          runtime in
      let same = same_reconciliation cfg in
      let (r, built) =
        reconciler_for-ok read c
          (ap (λ given. validate host.float (with_defaults host.float given)) same
            ∙ reconciler-IsAccepted host.float math paths cfg rounding laws reconciliation)
          (subst
            (λ given.
              IsReadable host.float read (trim_space (with_defaults host.float given).state_path))
            (sym same) readable) in
      >>=-returns (check_engine_config true c) _ checked
        (>>=-returns (reconciler_for host read c) _ built (_, refl))
