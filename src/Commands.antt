-- ===== src/Commands.antt =====
-- The IPC commands (src/commands.rs) over the methods of `HotUpdate`. A command takes the managed
-- configuration and the process; times are milliseconds.
pub mod Progress
use tauri_plugin_hot_update.Prelude.{
  ℕ, ◌-◌, Bool, true, false, not, ◌||◌, Option, none, some, List, [], ◌∷◌, leb, is_some,
  if◌then◌else◌,
}
use tauri_plugin_hot_update.Prelude.Result.{Result, ok, err}
use tauri_plugin_hot_update.Version.{Order}
use tauri_plugin_hot_update.Error.{Error, disabled}
use tauri_plugin_hot_update.Machine.Session
use tauri_plugin_hot_update.Machine.Session.{AckOutcome}
use tauri_plugin_hot_update.Store.{Codec}
use tauri_plugin_hot_update.Runtime
use tauri_plugin_hot_update.Runtime.{App, ApplyOutcome, CurrentBundle, from_embedded}
use tauri_plugin_hot_update.Update.{UpdateOutcome}
use tauri_plugin_hot_update.Update.Pipeline
use tauri_plugin_hot_update.Update.Pipeline.{UpdateConfig, Outside, TempNames}
use tauri_plugin_hot_update.Manifest.Verify.{or_err}

-- `none` is disabled by the configuration
pub record CommandConfig : Type 0 where
  pub update : Option UpdateConfig

abbrev pub update_config : {V : Type 0} → CommandConfig → Result (Error V) UpdateConfig
update_config config = or_err disabled config.update

abbrev pub is_disabled : CommandConfig → Bool
is_disabled config = not (is_some config.update)

-- the wire shape of an ack
pub data AckResult : Type 0 where
  committed already_committed stale : (seq : ℕ) → AckResult
  embedded_noop : AckResult

abbrev pub of_ack : AckOutcome → AckResult
of_ack (Session.committed seq) = committed seq
of_ack (Session.already_committed seq) = already_committed seq
of_ack Session.embedded_noop = embedded_noop
of_ack (Session.stale seq) = stale seq

pub record ProgressThrottle : Type 0 where
  pub min_interval : ℕ
  pub last_emit : Option ℕ

-- `PROGRESS_MIN_INTERVAL`
abbrev pub progress_min_interval : ℕ
progress_min_interval = 100

abbrev pub new_throttle : ℕ → ProgressThrottle
new_throttle min_interval = record { min_interval = min_interval; last_emit = none }

-- The times at which one call reads the clock: for `elapsed`, and for `Instant::now`.
pub record Clock : Type 0 where
  pub asked : ℕ
  pub noted : ℕ

-- `elapsed` stops at zero
abbrev pub is_due : ProgressThrottle → ℕ → Bool
is_due throttle asked = elim throttle.last_emit [
  | none ↦ true
  | some at ↦ leb throttle.min_interval (asked - at)
]

unfoldable pub should_emit : Clock → ℕ → ℕ → ProgressThrottle → Bool × ProgressThrottle
should_emit clock downloaded total throttle =
    if leb total downloaded || is_due throttle clock.asked
    then (true, record throttle { last_emit = some clock.noted })
    else (false, throttle)

-- a call of `on_progress`
pub record Report : Type 0 where
  pub clock : Clock
  pub downloaded : ℕ
  pub total : ℕ

-- the calls that the command `download` passes on as events
unfoldable pub emitted : ProgressThrottle → List Report → List Report
unfolding should_emit
emitted throttle [] = []
emitted throttle (r ∷ rs) =
    let (emits, throttle') = should_emit r.clock r.downloaded r.total throttle in
    let rest = emitted throttle' rs in if emits then r ∷ rest else rest

abbrev with_ack :
    {V : Type 0} → Result (Error V) AckOutcome × App V → Result (Error V) AckResult × App V
with_ack (ok outcome, app) = (ok (of_ack outcome), app)
with_ack (err e, app) = (err e, app)

module _ {V : Type 0} ⦃o : Order V⦄ (c : Codec V) (config : CommandConfig) where
  unfoldable pub check : Outside V → App V → Result (Error V) (UpdateOutcome V) × App V
  check x app = elim (update_config {V = V} config) [
    | err e ↦ (err e, app)
    | ok update ↦ Pipeline.check c x update app
  ]

  unfoldable pub download :
      Outside V → TempNames → App V → Result (Error V) (UpdateOutcome V) × App V
  download x names app = elim (update_config {V = V} config) [
    | err e ↦ (err e, app)
    | ok update ↦ Pipeline.check_and_download c x update names app
  ]

  unfoldable pub notify_app_ready : App V → Result (Error V) AckResult × App V
  notify_app_ready app =
      if is_disabled config
      then (ok embedded_noop, app)
      else with_ack (Runtime.notify_app_ready c app)

  -- `shell` is the version of the app
  unfoldable pub current_bundle : V → App V → Result (Error V) (CurrentBundle V)
  current_bundle shell app =
      if is_disabled config
      then ok (record { source = from_embedded; seq = none; version = shell })
      else Runtime.current_bundle c app

  unfoldable pub reset : App V → Result (Error V) (Unit {0}) × App V
  reset app = if is_disabled config then (ok tt, app) else Runtime.reset_all c app

  unfoldable pub apply : App V → Result (Error V) (ApplyOutcome V) × App V
  apply app = elim (update_config {V = V} config) [
    | err e ↦ (err e, app)
    | ok update ↦ Runtime.apply_staged c app
  ]
