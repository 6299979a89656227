-- ===== src/Runtime.antt =====
-- The wiring of the state machine to the store, and the runtime interface (src/runtime.rs). A method
-- takes and returns the process and the world. The locks are left out: a call is one step.
pub mod Booting
pub mod Calls
pub mod Switching
use tauri_plugin_hot_update.Prelude.{
  ℕ, Bool, true, false, not, ◌&&◌, ◌||◌, Option, none, some, List, [], ◌∷◌, ◌≡◌, if◌then◌else◌,
  is_some, or_else,
}
use tauri_plugin_hot_update.Prelude.Map
use tauri_plugin_hot_update.Prelude.Result.{Result, ok, err}
use tauri_plugin_hot_update.Version.{Order}
use tauri_plugin_hot_update.Machine.{State, BundleMeta, Active, embedded, ota, Effect}
use tauri_plugin_hot_update.Machine.Boot.{BootOutcome, resolve_boot, source_of}
use tauri_plugin_hot_update.Machine.Session
use tauri_plugin_hot_update.Machine.Session.{
  AckOutcome, stale, ack, ApplyDecision, promote_staged, reset,
}
use tauri_plugin_hot_update.Error.{Error, not_active}
use tauri_plugin_hot_update.Store.{
  Codec, load_state, save_state, update, present_seqs, apply_effects, sweep_foreign_entries,
}
use tauri_plugin_hot_update.Store.Disk.{World, IoError}
use tauri_plugin_hot_update.Store.Names.{bundle_name}

-- What the provider serves; the directory is a name under `bundles/`.
pub record Current (V : Type 0) : Type 0 where
  pub active : Active
  pub active_dir : Option (List ℕ)
  pub active_version : V

pub record Activation (V : Type 0) : Type 0 where
  pub current : Current V
  pub embedded_version : V

pub record Shared (V : Type 0) : Type 0 where
  pub activation : Option (Activation V)
  pub page_acked : Bool
  pub reload_pending : Bool

-- The process and the file system.
pub record App (V : Type 0) : Type 0 where
  pub shared : Shared V
  pub world : World

pub data BundleSource : Type 0 where
  from_embedded from_ota : BundleSource

pub record CurrentBundle (V : Type 0) : Type 0 where
  pub source : BundleSource
  pub seq : Option ℕ
  pub version : V

pub data ApplyOutcome (V : Type 0) : Type 0 where
  applied : (seq : ℕ) (version : V) → ApplyOutcome V
  nothing_staged trial_pending not_applicable : ApplyOutcome V

abbrev pub seq_or_zero : Active → ℕ
seq_or_zero embedded = 0
seq_or_zero (ota seq) = seq

module _ {V : Type 0} where
  abbrev pub version_or : V → Option (BundleMeta V) → V
  version_or shell none = shell
  version_or shell (some m) = m.version

  -- the directory and the version of an active source
  unfoldable pub current_of : Active → State V → V → Current V
  current_of embedded s shell = record {
    active = embedded;
    active_dir = none;
    active_version = shell;
  }
  current_of (ota seq) s shell = record {
    active = ota seq;
    active_dir = some (bundle_name seq);
    active_version = version_or shell (Map.get seq s.versions);
  }

  unfoldable pub active_dir : Shared V → Option (List ℕ)
  active_dir sh = elim sh.activation [ none ↦ none | some a ↦ a.current.active_dir ]

  -- `OnceLock::set` keeps the first value
  abbrev set_once : Option (Activation V) → Activation V → Option (Activation V)
  set_once none a = some a
  set_once (some first) a = some first

module _ {V : Type 0} ⦃o : Order V⦄ (c : Codec V) where
  -- what follows the attempt to persist the outcome of the launch
  abbrev pub served : Result IoError (Unit {0}) → BootOutcome V → World → Active × World
  served (ok _) outcome w =
      (outcome.active, sweep_foreign_entries (apply_effects outcome.effects w))
  served (err _) outcome w = (source_of outcome.state.committed, w)

  -- the source that a launch serves, its state, and the world after it
  unfoldable pub boot_from : V → World → Active × State V × World
  boot_from shell w =
      let (s, w₁) = load_state c w in
      let (present, w₂) = present_seqs w₁ in
      let outcome = resolve_boot s shell present in
      let (saved, w₃) = save_state c outcome.state w₂ in
      let (active, w₄) = served saved outcome w₃ in (active, outcome.state, w₄)

  unfoldable pub initialize : V → App V → App V
  unfolding boot_from
  initialize shell app =
      let (active, s, w) = boot_from shell app.world in
      let started : Activation V = record {
        current = current_of active s shell;
        embedded_version = shell;
      } in
      record {
        shared = record app.shared { activation = set_once app.shared.activation started };
        world = w;
      }

  abbrev pub finish_ack :
      Result IoError (AckOutcome × List Effect)
      → Shared V
      → World
      → Result (Error V) AckOutcome × App V
  finish_ack (err _) sh w = (err Error.io, record { shared = sh; world = w })
  finish_ack (ok (outcome, effects)) sh w =
      (ok outcome, record { shared = sh; world = apply_effects effects w })

  -- `notify_app_ready` of an activated process with no reload pending
  unfoldable pub ack_page : Activation V → App V → Result (Error V) AckOutcome × App V
  ack_page a app =
      let (r, w) =
        update c (λ s. let acked = ack s a.current.active in (acked.0, (acked.1, acked.2)))
          app.world in
      finish_ack r (record app.shared { page_acked = true }) w

  unfoldable pub notify_app_ready : App V → Result (Error V) AckOutcome × App V
  unfolding ack_page
  notify_app_ready app = elim app.shared.activation [
    | none ↦ (err not_active, app)
    | some a ↦
        if app.shared.reload_pending
        then (ok (stale (seq_or_zero a.current.active)), app)
        else ack_page a app
  ]

  unfoldable pub current_bundle : App V → Result (Error V) (CurrentBundle V)
  current_bundle app = elim app.shared.activation [
    | none ↦ err not_active
    | some a ↦ elim a.current.active [
      | ota seq ↦
          ok (record { source = from_ota; seq = some seq; version = a.current.active_version })
      | embedded ↦ ok (record { source = from_embedded; seq = none; version = a.embedded_version })
    ]
  ]

  -- the switch to a bundle whose promotion is on disk; its version is read back
  unfoldable pub switch_to : ℕ → Activation V → App V → ApplyOutcome V × App V
  switch_to seq a app =
      let (s, w) = load_state c app.world in
      let version = version_or a.embedded_version (Map.get seq s.versions) in
      let current : Current V = record {
        active = ota seq;
        active_dir = some (bundle_name seq);
        active_version = version;
      } in
      (
        applied seq version,
        record {
          shared = record app.shared { activation = some (record a { current = current }) };
          world = w;
        },
      )

  abbrev pub finish_apply : ApplyDecision V → Activation V → App V → ApplyOutcome V × App V
  finish_apply (Session.applied seq) a app = switch_to seq a app
  finish_apply Session.nothing_staged a app = (nothing_staged, app)
  finish_apply Session.trial_pending a app = (trial_pending, app)
  finish_apply Session.discarded a app = (not_applicable, app)
  finish_apply (Session.base_refused _) a app = (not_applicable, app)

  abbrev pub after_promotion :
      Result IoError (ApplyDecision V × List Effect)
      → Activation V
      → Shared V
      → World
      → Result (Error V) (ApplyOutcome V) × App V
  after_promotion (err _) a sh w = (err Error.io, record { shared = sh; world = w })
  after_promotion (ok (decision, effects)) a sh w =
      let done =
        finish_apply decision a (record { shared = sh; world = apply_effects effects w }) in
      (ok done.0, done.1)

  -- `apply_staged` of an activated process
  unfoldable pub apply_active : Activation V → App V → Result (Error V) (ApplyOutcome V) × App V
  unfolding switch_to
  apply_active a app =
      let (present, w₁) = present_seqs app.world in
      let (r, w₂) =
        update c
          (λ s.
            let promoted = promote_staged s a.embedded_version present in
            (promoted.0, (promoted.1, promoted.2)))
          w₁ in
      after_promotion r a app.shared w₂

  unfoldable pub apply_staged : App V → Result (Error V) (ApplyOutcome V) × App V
  unfolding apply_active
  apply_staged app = elim app.shared.activation [
    | none ↦ (err not_active, app)
    | some a ↦ apply_active a app
  ]

  abbrev pub finish_reset :
      Result IoError (List Effect) → Shared V → World → Result (Error V) (Unit {0}) × App V
  finish_reset (err _) sh w = (err Error.io, record { shared = sh; world = w })
  finish_reset (ok effects) sh w =
      (ok tt, record { shared = sh; world = sweep_foreign_entries (apply_effects effects w) })

  unfoldable pub reset_all : App V → Result (Error V) (Unit {0}) × App V
  reset_all app = elim app.shared.activation [
    | none ↦ (err not_active, app)
    | some a ↦
        let (r, w) = update c (λ s. reset s a.embedded_version a.current.active) app.world in
        finish_reset r app.shared w
  ]
