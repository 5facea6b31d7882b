-- ===== src/Tests/Configuration.antt =====
-- The configuration of the server at small inputs.
use bering.Prelude.{String, ◌≡◌, refl, true, ok}
use bering.Go.Float.{thousandths, thousandths-IsRounding}
use bering.Go.Text.{trim_space, to_lower}
use bering.Reconciliation.Config.{with_defaults}
use bering.Reconciliation.State.{absent, load_state}
use bering.Config.{
  ServeConfig, default_serve_config, validate_serve, validate_server, validate_runtime,
  validate_reconciliation, validate_gaps, validate_beliefs, mode_of, known_policy,
}
use bering.Runtime.Types.{Engine}
use bering.Runtime.Lifetime.{new_engine}
use bering.Runtime.Adapter.{
  MathOps, Paths, engine_config, build_runtime_reconciliation_config, adapted,
}
use bering.Runtime.Adapter.Usable.{thousandths-IsComparison}
use bering.Runtime.Adapter.Starts.{IsReadable, new_engine-ok}
use bering.Tests.Publication.{host}

-- A second is a thousandth, and the exponential is a half.
abbrev math : MathOps
math = record { seconds = λ z. 1000; exp = λ x. 500; minus_ln2 = 0 }

abbrev no_paths : Paths
no_paths = record { state = ""; report = ""; summary = ""; raw_window = ""; stable_core = "" }

abbrev served : ServeConfig
served = default_serve_config thousandths

served_is_valid : validate_serve thousandths served ≡ ok tt
unfolding default_serve_config validate_serve validate_server validate_runtime
    validate_reconciliation validate_gaps validate_beliefs mode_of known_policy trim_space to_lower
served_is_valid = refl

no_state_file :
    IsReadable thousandths
      (λ path. absent)
      (trim_space
        (with_defaults thousandths
          (build_runtime_reconciliation_config thousandths math "" served)).state_path)
unfolding load_state with_defaults build_runtime_reconciliation_config adapted trim_space
no_state_file = (_, refl)

new_engine-ok_example :
    (e : Engine String) × (new_engine host
        (λ path. absent)
        true
        250
        (engine_config thousandths math no_paths served)
      ≡ ok e)
new_engine-ok_example =
    new_engine-ok host math no_paths (λ path. absent) 250 served thousandths-IsRounding
      thousandths-IsComparison served_is_valid no_state_file
