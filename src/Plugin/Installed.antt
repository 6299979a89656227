-- ===== src/Plugin/Installed.antt =====
-- What an app serves after `install` (src/lib.rs), as long as nothing is activated.
use tauri_plugin_hot_update.Prelude.{
  ℕ, false, none, some, List, ◌≡◌, refl, ◌⊎◌, inl, inr, arith, ap, ◌∙◌,
}
use tauri_plugin_hot_update.Prelude.Result.{ok, Result-cases}
use tauri_plugin_hot_update.Version.{Order}
use tauri_plugin_hot_update.Manifest.Verify.{Minisign}
use tauri_plugin_hot_update.Store.{Codec}
use tauri_plugin_hot_update.Store.Disk.{World}
use tauri_plugin_hot_update.Runtime.{App, Shared, active_dir}
use tauri_plugin_hot_update.Config.{Config, validate}
use tauri_plugin_hot_update.Assets
use tauri_plugin_hot_update.Assets.{Files, Embedded, ota_file}
use tauri_plugin_hot_update.Plugin.{
  Launch, Plugin, Contexts, placeholder_assets, provider, install, set_up,
}

-- the assets of an app answer as the embedded ones do
pub record IsEmbedded (embedded assets : Embedded) : Type 0 where
  pub gets : (key : List ℕ) → assets.get key ≡ embedded.get key
  pub hashes : (key : List ℕ) → assets.csp_hashes key ≡ embedded.csp_hashes key

module _ {V : Type 0} (k : Contexts V) (files : Files) (context : k.Context) where
  provider-IsEmbedded :
      (embedded : Embedded) (shared : Shared V)
      → shared.activation ≡ none
      → IsEmbedded embedded (provider files embedded shared)
  unfolding provider Assets.get Assets.csp_hashes ota_file active_dir
  provider-IsEmbedded embedded shared n = record {
    gets = λ key. ground arith;
    hashes = λ key. ground arith;
  }

  -- the assets of an installed app are the provider over those that were there
  install-provider :
      k.assets (install k files context).0
      ≡ (λ shared. provider files (k.assets context shared) shared)
  unfolding install
  install-provider =
      let over : (Shared V → Embedded) → Shared V → Embedded =
        λ e shared. provider files (e shared) shared in
      let (embedded, waiting) = k.set_assets (λ shared. placeholder_assets) context in
      k.set_assets-assets (over embedded) waiting
      ∙ ap over (k.set_assets-returned (λ shared. placeholder_assets) context)

  install-IsEmbedded :
      (shared : Shared V)
      → shared.activation ≡ none
      → IsEmbedded (k.assets context shared) (k.assets (install k files context).0 shared)
  install-IsEmbedded shared n =
      rw install-provider (provider-IsEmbedded (k.assets context shared) shared n)

module _ {V : Type 0} ⦃o : Order V⦄ (c : Codec V) (mini : Minisign) (k : Contexts V) (files : Files)
    (context : k.Context) where
  -- the process of an installed app
  abbrev pub installed : World → App V
  installed w = record { shared = (install k files context).1; world = w }

  unactivated :
      (launch : Launch V) (config : Config) (w : World) (plugin : Plugin V)
      → launch.config ≡ some config
      → (config.enabled ≡ false) ⊎ (launch.has_root ≡ false)
      → set_up c mini launch (installed w) ≡ ok plugin
      → plugin.app ≡ installed w
  unfolding set_up validate
  unactivated launch config w plugin n (inl d) e = ground arith
  unactivated launch config w plugin n (inr d) e =
      elim (Result-cases (validate {V = V} mini config)) [
        | inr (x, f) ↦ absurd (ground arith)
        | inl (u, f) ↦ ground arith
      ]

  -- An installed app answers every key as its context did before, content and hashes alike, until
  -- the setup hook runs, and after it where the plugin is disabled or the data directory cannot be
  -- found. Such a setup does not touch the disk.
  pub installed_floor :
      (launch : Launch V) (config : Config) (w : World) (plugin : Plugin V)
      → launch.config ≡ some config
      → (config.enabled ≡ false) ⊎ (launch.has_root ≡ false)
      → set_up c mini launch (installed w) ≡ ok plugin
      → IsEmbedded
          (k.assets context (installed w).shared)
          (k.assets (install k files context).0 (installed w).shared)
        × IsEmbedded
            (k.assets context plugin.app.shared)
            (k.assets (install k files context).0 plugin.app.shared)
        × (plugin.app.world ≡ w)
  installed_floor launch config w plugin n d e =
      let same = unactivated launch config w plugin n d e in
      let floor =
        install-IsEmbedded k files context (installed w).shared (unfold install in refl) in
      rw same (floor, floor, refl)
