-- ===== src/Plugin/Dark.antt =====
-- What the setup hook (src/lib.rs) starts, and what the commands of a disabled plugin do.
use tauri_plugin_hot_update.Prelude.{
  ℕ, ◌≤◌, Bool, true, false, Option, none, some, ◌≡◌, refl, sym, ap, ◌∙◌, arith, Option-cases, inl,
  inr,
}
use tauri_plugin_hot_update.Prelude.Result.{ok, err, Result-cases}
use tauri_plugin_hot_update.Version.{Order}
use tauri_plugin_hot_update.Error.{disabled}
use tauri_plugin_hot_update.Manifest.Verify.{Minisign}
use tauri_plugin_hot_update.Store.{Codec}
use tauri_plugin_hot_update.Runtime.{App, Shared, from_embedded}
use tauri_plugin_hot_update.Update.Pipeline.{UpdateConfig, Outside, TempNames}
use tauri_plugin_hot_update.Config.{Config, boot_recovery_after, validate}
use tauri_plugin_hot_update.Config.Accepted.{
  IsUsable, validate-IsUsable, boot_recovery_after_bounds,
}
use tauri_plugin_hot_update.Commands.{
  CommandConfig, embedded_noop, check, download, notify_app_ready, current_bundle, reset, apply,
}
use tauri_plugin_hot_update.Plugin.{
  Launch, Plugin, is_activated, recovery_of, started, managed, set_up,
}

module _ {V : Type 0} ⦃o : Order V⦄ (c : Codec V) where
  -- The commands that update refuse, and the others do nothing.
  pub record IsDark (version : V) (commands : CommandConfig) : Type 1 where
    pub checks : (x : Outside V) (app : App V) → check c commands x app ≡ (err disabled, app)
    pub downloads :
        (x : Outside V) (names : TempNames) (app : App V)
        → download c commands x names app ≡ (err disabled, app)
    pub applies : (app : App V) → apply c commands app ≡ (err disabled, app)
    pub acks : (app : App V) → notify_app_ready c commands app ≡ (ok embedded_noop, app)
    pub resets : (app : App V) → reset c commands app ≡ (ok tt, app)
    pub reports :
        (app : App V)
        → current_bundle c commands version app
          ≡ ok (record { source = from_embedded; seq = none; version = version })

recovery_of-some :
    {V : Type 0} (is_debug : Bool) (shared : Shared V) (delay : Option ℕ) (u : Option UpdateConfig)
    (update : UpdateConfig) (after : ℕ)
    → recovery_of is_debug shared delay u ≡ some (update, after)
    → (delay ≡ some after) × (u ≡ some update) × (is_debug ≡ false) × (is_activated shared ≡ true)
recovery_of-some is_debug shared none u update after h = absurd (ground arith)
recovery_of-some is_debug shared (some d) none update after h = absurd (ground arith)
recovery_of-some is_debug shared (some d) (some u) update after h = ground arith

module _ {V : Type 0} ⦃o : Order V⦄ (c : Codec V) (mini : Minisign) where
  -- A launch with a disabled configuration succeeds, whatever else the configuration says: it leaves
  -- the process and the disk alone, starts no recovery, and from then on no command does anything.
  pub set_up-IsDark :
      (launch : Launch V) (config : Config) (app : App V)
      → launch.config ≡ some config
      → config.enabled ≡ false
      → (plugin : Plugin V) × (set_up c mini launch app ≡ ok plugin)
        × (plugin.app ≡ app)
        × (plugin.recovery ≡ none)
        × IsDark c launch.version plugin.commands
  unfolding set_up validate check download notify_app_ready current_bundle reset apply
  set_up-IsDark launch config app e n = (
    managed c mini launch config app none,
    ground arith,
    refl,
    ground arith,
    record {
      checks = λ x app. refl;
      downloads = λ x names app. refl;
      applies = λ app. refl;
      acks = λ app. refl;
      resets = λ app. refl;
      reports = λ app. refl;
    },
  )

  -- A recovery task is started only for a configuration that is enabled and usable, in a build
  -- without debugging, once the process is active, and waits for at least five seconds. The commands
  -- see the configuration that the task has.
  pub set_up-recovery :
      (launch : Launch V) (app : App V) (plugin : Plugin V) (update : UpdateConfig) (after : ℕ)
      → set_up c mini launch app ≡ ok plugin
      → plugin.recovery ≡ some (update, after)
      → (config : Config) × (launch.config ≡ some config)
        × IsUsable V mini config update
        × (plugin.commands.update ≡ some update)
        × (launch.is_debug ≡ false)
        × (is_activated plugin.app.shared ≡ true)
        × (5 ≤ after)
  unfolding set_up
  set_up-recovery launch app plugin update after e r = elim (Option-cases launch.config) [
    | inl n ↦ absurd (ground arith)
    | inr (config, n) ↦ elim (Result-cases (validate {V = V} mini config)) [
      | inr (x, k) ↦ absurd (ground arith)
      | inl (u, k) ↦
          let same : plugin ≡ managed c mini launch config app u = ground arith in
          let (delay, updates, release, active) =
            recovery_of-some launch.is_debug (started c mini launch app u).shared
              (boot_recovery_after config) u update after
              (ap (λ (p : Plugin V). p.recovery) (sym same) ∙ r) in
          (
            config,
            n,
            (validate-IsUsable V mini config).1 update (k ∙ ap ok updates),
            ap (λ (p : Plugin V). p.commands.update) same ∙ updates,
            release,
            ap (λ (p : Plugin V). is_activated p.app.shared) same ∙ active,
            (boot_recovery_after_bounds config after delay).1,
          )
    ]
  ]
