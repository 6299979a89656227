-- ===== src/Plugin.antt =====
-- The setup hook of the plugin and its page-load hook (src/lib.rs). The calls of Tauri are left out:
-- what the hook finds is the record `Launch`, what it manages and spawns the record `Plugin`.
pub mod Dark
pub mod Reload
pub mod Installed
use tauri_plugin_hot_update.Prelude.{
  ℕ, Bool, true, false, Option, none, some, List, [], ◌≡◌, is_some, if◌then◌else◌,
}
use tauri_plugin_hot_update.Prelude.Result.{Result, ok, err, ◌>>=◌}
use tauri_plugin_hot_update.Version.{Order}
use tauri_plugin_hot_update.Error
use tauri_plugin_hot_update.Error.{Error}
use tauri_plugin_hot_update.Manifest.Verify.{Minisign, or_err}
use tauri_plugin_hot_update.Store.{Codec}
use tauri_plugin_hot_update.Runtime.{App, Shared, initialize}
use tauri_plugin_hot_update.Assets
use tauri_plugin_hot_update.Assets.{Files, Embedded}
use tauri_plugin_hot_update.Update.Pipeline.{UpdateConfig}
use tauri_plugin_hot_update.Config.{Config, boot_recovery_after, validate}
use tauri_plugin_hot_update.Commands.{CommandConfig}
use tauri_plugin_hot_update.Recovery.{set_reload_pending}

-- the configuration of the app, whether its data directory can be found, the kind of build, and the
-- version of the app
pub record Launch (V : Type 0) : Type 0 where
  pub config : Option Config
  pub has_root : Bool
  pub is_debug : Bool
  pub version : V

-- the process after the hook, the configuration that the commands see, and the recovery task with
-- its delay
pub record Plugin (V : Type 0) : Type 0 where
  pub app : App V
  pub commands : CommandConfig
  pub recovery : Option (UpdateConfig × ℕ)

-- `PlaceholderAssets`
abbrev pub placeholder_assets : Embedded
placeholder_assets = record { get = λ key. none; csp_hashes = λ key. [] }

-- The provider as the assets of an app; it reads the process whenever it is asked.
unfoldable pub provider : {V : Type 0} → Files → Embedded → Shared V → Embedded
unfolding Assets.get Assets.csp_hashes
provider files embedded shared = record {
  get = Assets.get files embedded shared;
  csp_hashes = Assets.csp_hashes files embedded shared;
}

-- `Context` of Tauri, whose `set_assets` replaces the assets and returns those that were there. The
-- assets may read the process, so they are a function of it.
pub record Contexts (V : Type 0) : Type 1 where
  pub Context : Type 0
  pub assets : Context → Shared V → Embedded
  pub set_assets : (Shared V → Embedded) → Context → (Shared V → Embedded) × Context
  pub set_assets-returned :
      (new : Shared V → Embedded) (context : Context) → (set_assets new context).0 ≡ assets context
  pub set_assets-assets :
      (new : Shared V → Embedded) (context : Context) → assets (set_assets new context).1 ≡ new

-- `install`: the context with the provider, and the new process
unfoldable pub install : {V : Type 0} (k : Contexts V) → Files → k.Context → k.Context × Shared V
unfolding provider
install k files context =
    let (embedded, waiting) = k.set_assets (λ shared. placeholder_assets) context in
    let (_, installed) = k.set_assets (λ shared. provider files (embedded shared) shared) waiting in
    (installed, record { activation = none; page_acked = false; reload_pending = false })

abbrev pub is_activated : {V : Type 0} → Shared V → Bool
is_activated shared = is_some shared.activation

abbrev pub recovery_of :
    {V : Type 0} → Bool → Shared V → Option ℕ → Option UpdateConfig → Option (UpdateConfig × ℕ)
recovery_of is_debug shared (some after) (some update) =
    if is_debug then none else if is_activated shared then some (update, after) else none
recovery_of is_debug shared _ _ = none

-- `on_page_load`: whether the event is the start of a load
unfoldable pub on_page_load : {V : Type 0} → Bool → App V → App V
on_page_load started app = if started then set_reload_pending false app else app

module _ {V : Type 0} ⦃o : Order V⦄ (c : Codec V) (mini : Minisign) where
  -- `initialize` of an enabled plugin that has a root
  abbrev pub started : Launch V → App V → Option UpdateConfig → App V
  started launch app none = app
  started launch app (some update) =
      if launch.has_root then initialize c launch.version app else app

  abbrev pub managed : Launch V → Config → App V → Option UpdateConfig → Plugin V
  managed launch config app update = record {
    app = started launch app update;
    commands = record { update = update };
    recovery =
        recovery_of launch.is_debug (started launch app update).shared (boot_recovery_after config)
          update;
  }

  -- An error ends the launch.
  unfoldable pub set_up : Launch V → App V → Result (Error V) (Plugin V)
  unfolding boot_recovery_after
  set_up launch app = do
    config ← or_err (Error.config "missing `plugins.hot-update` in tauri.conf.json") launch.config
    update ← validate mini config
    ok (managed launch config app update)
