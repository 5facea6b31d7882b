-- ===== src/Reconciliation/State.antt =====
-- internal/reconciliation: `loadState` of io.go and `New` of engine.go. The reading of a file and of
-- its JSON is a parameter.
use bering.Prelude.{String, List, [], ◌∷◌, ◌==◌, if◌then◌else◌, Result, ok, err, ◌>>=◌, Checked}
use bering.Go.Float.{FloatOps}
use bering.Go.Text.{trim_space}
use bering.Reconciliation.Types.{PersistedState, new_persisted_state}
use bering.Reconciliation.Config.{Config, ConfigError, with_defaults, validate}
use bering.Reconciliation.Window.{ensure_state_maps}
use bering.Reconciliation.Process.{Reconciler}

-- What the file of a path holds: nothing, bytes that cannot be read, text that is no state, with the
-- warning, or a state.
pub data StateFile : Type 0 where
  absent unreadable : StateFile
  corrupt : String → StateFile
  stored : PersistedState → StateFile

pub data NewError : Type 0 where
  config_invalid : ConfigError → NewError
  state_not_read : NewError

module _ (fl : FloatOps) (read : String → StateFile) where
  loaded : StateFile → Result NewError (PersistedState × List String)
  unfolding new_persisted_state ensure_state_maps
  loaded absent = ok (new_persisted_state fl, [])
  loaded unreadable = err state_not_read
  loaded (corrupt warning) = ok (new_persisted_state fl, warning ∷ [])
  loaded (stored state) = ok (ensure_state_maps state, [])

  unfoldable pub load_state : String → Result NewError (PersistedState × List String)
  unfolding loaded new_persisted_state
  load_state path = if path == "" then ok (new_persisted_state fl, []) else loaded (read path)

  unfoldable pub of_config : Checked ConfigError → Checked NewError
  of_config (ok u) = ok u
  of_config (err e) = err (config_invalid e)

  -- `New`
  unfoldable pub new_reconciler : Config → Result NewError Reconciler
  unfolding of_config load_state
  new_reconciler given =
      let cfg = with_defaults fl given in
      of_config (validate fl cfg) >>= λ _.
      load_state (trim_space cfg.state_path) >>= λ (state, warnings).
      ok (record { cfg = cfg; state = state; load_warnings = warnings })
