-- ===== src/Tests/Plugin.antt =====
-- The theorems about the commands and the setup hook at concrete launches.
use tauri_plugin_hot_update.Prelude.{
  ℕ, ◌+◌, ◌*◌, ◌≤◌, true, false, none, some, List, [], ◌∷◌, ◌≡◌, refl, arith, inr,
}
use tauri_plugin_hot_update.Prelude.Result.{ok}
use tauri_plugin_hot_update.Machine.Session.{committed}
use tauri_plugin_hot_update.Store.Persist.{on_disk}
use tauri_plugin_hot_update.Runtime.{App, Shared, notify_app_ready}
use tauri_plugin_hot_update.Config.{Config, boot_recovery_after, validate}
use tauri_plugin_hot_update.Config.Accepted.{IsUsable}
use tauri_plugin_hot_update.Manifest.Verify.{validate_pubkeys}
use tauri_plugin_hot_update.Commands.{Report, new_throttle, emitted, progress_min_interval}
use tauri_plugin_hot_update.Commands.Progress.{finals, partials, emitted_bounds}
use tauri_plugin_hot_update.Recovery.{recover_once}
use tauri_plugin_hot_update.Plugin.{Launch, Plugin, is_activated, managed, set_up, on_page_load}
use tauri_plugin_hot_update.Plugin.Dark.{IsDark, set_up-IsDark, set_up-recovery}
use tauri_plugin_hot_update.Assets.{Files, Embedded}
use tauri_plugin_hot_update.Plugin.{Contexts, install}
use tauri_plugin_hot_update.Plugin.Installed.{IsEmbedded, installed_floor}
use tauri_plugin_hot_update.Plugin.Reload.{IsCommitted, notify_app_ready-on_page_load}
use tauri_plugin_hot_update.Tests.Data.{number_order, full_sha}
use tauri_plugin_hot_update.Tests.Codec.{codec}
use tauri_plugin_hot_update.Tests.Pipeline.{keys, config, running}
use tauri_plugin_hot_update.Tests.Pipeline.{code as pipeline_code}
use tauri_plugin_hot_update.Tests.Manifest.{configured}
use tauri_plugin_hot_update.Tests.Runtime.{cold}
use tauri_plugin_hot_update.Tests.Runtime.{code as runtime_code}
use tauri_plugin_hot_update.Tests.Recovery.{around, switches}

-- three chunks of an archive of three bytes, the second one soon after the first
abbrev chunks : List Report
chunks =
    record { clock = record { asked = 10; noted = 11 }; downloaded = 1; total = 3 }
    ∷ record { clock = record { asked = 50; noted = 51 }; downloaded = 2; total = 3 }
    ∷ record { clock = record { asked = 60; noted = 61 }; downloaded = 3; total = 3 }
    ∷ []

emitted_bounds_example :
    (100 * partials (emitted (new_throttle progress_min_interval) chunks) + 5 ≤ 70 + 100)
    × (finals (emitted (new_throttle progress_min_interval) chunks) ≡ finals chunks)
emitted_bounds_example =
    emitted_bounds 5 70 chunks (
      omega arith,
      omega arith,
      (omega arith, omega arith, (omega arith, omega arith, omega arith)),
    )

-- a disabled configuration whose other values make no sense
abbrev dark : Config
dark = record {
  manifest_url = some "?";
  pubkeys = [];
  enabled = false;
  boot_recovery_secs = some 9;
}

abbrev dark_launch : Launch ℕ
dark_launch = record { config = some dark; has_root = true; is_debug = false; version = 5 }

set_up-IsDark_example :
    (plugin : Plugin ℕ) × (set_up codec keys dark_launch cold ≡ ok plugin)
    × (plugin.app ≡ cold)
    × (plugin.recovery ≡ none)
    × IsDark codec 5 plugin.commands
set_up-IsDark_example = set_up-IsDark codec keys dark_launch dark cold refl refl

abbrev launch : Launch ℕ
launch = record { config = some configured; has_root = true; is_debug = false; version = 5 }

abbrev set_up_plugin : Plugin ℕ
set_up_plugin = managed codec keys launch configured cold (some config)

set_up-recovery_example :
    (used : Config) × (launch.config ≡ some used)
    × IsUsable ℕ keys used config
    × (set_up_plugin.commands.update ≡ some config)
    × (launch.is_debug ≡ false)
    × (is_activated set_up_plugin.app.shared ≡ true)
    × (5 ≤ 5)
unfolding pipeline_code runtime_code set_up validate validate_pubkeys boot_recovery_after
set_up-recovery_example = set_up-recovery codec keys launch cold set_up_plugin config 5 refl refl

abbrev loading : App ℕ
loading = on_page_load true (recover_once codec config around running).1

notify_app_ready-on_page_load_example :
    IsCommitted codec 3 (committed 3) (notify_app_ready codec loading).1
unfolding pipeline_code runtime_code recover_once on_page_load on_disk
notify_app_ready-on_page_load_example =
    notify_app_ready-on_page_load codec config around running loading 3
      (record { version = 30; archive_sha256 = full_sha; base_version = none }) (committed 3)
      switches refl refl refl refl refl

abbrev files : Files
files = record { is_file = λ path. true; read = λ path. some (1 ∷ []) }

abbrev compiled : Embedded
compiled = record { get = λ key. some (2 ∷ []); csp_hashes = λ key. "sha256-x" ∷ [] }

-- a launch whose data directory cannot be found
abbrev rootless : Launch ℕ
rootless = record launch { has_root = false }

abbrev rootless_plugin : Plugin ℕ
rootless_plugin = managed codec keys rootless configured cold (some config)

-- a context that is its assets
abbrev contexts : Contexts ℕ
contexts = record {
  Context = Shared ℕ → Embedded;
  assets = λ context. context;
  set_assets = λ new context. (context, new);
  set_assets-returned = λ new context. refl;
  set_assets-assets = λ new context. refl;
}

abbrev generated : contexts.Context
generated = λ shared. compiled

installed_floor_example :
    IsEmbedded compiled (contexts.assets (install contexts files generated).0 cold.shared)
    × IsEmbedded compiled
        (contexts.assets (install contexts files generated).0 rootless_plugin.app.shared)
    × (rootless_plugin.app.world ≡ cold.world)
unfolding pipeline_code runtime_code set_up validate validate_pubkeys boot_recovery_after install
installed_floor_example =
    installed_floor codec keys contexts files generated rootless configured cold.world
      rootless_plugin refl (inr refl) refl
