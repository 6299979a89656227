-- ===== src/Config.antt =====
-- The configuration of the plugin (src/config.rs).
pub mod Accepted
use text.Mathlib.Text.{starts_with}
use tauri_plugin_hot_update.Prelude.{
  ℕ, String, Bool, true, false, not, ◌&&◌, Option, none, some, List, ◌==◌, max, if◌then◌else◌,
}
use tauri_plugin_hot_update.Prelude.Texts.{trim, is_empty, contains_code}
use tauri_plugin_hot_update.Prelude.Result.{Result, ok, err, ◌>>=◌}
use tauri_plugin_hot_update.Error
use tauri_plugin_hot_update.Error.{Error}
use tauri_plugin_hot_update.Manifest.Verify.{Minisign, validate_pubkeys, no_keys}
use tauri_plugin_hot_update.Update.Pipeline.{UpdateConfig}

-- `plugins.hot-update` in `tauri.conf.json`
pub record Config : Type 0 where
  pub manifest_url : Option String
  pub pubkeys : List String
  pub enabled : Bool
  pub boot_recovery_secs : Option ℕ

abbrev pub min_boot_recovery_secs : ℕ
min_boot_recovery_secs = 5

abbrev pub delay_of : Option ℕ → Option ℕ
delay_of none = none
delay_of (some secs) = if secs == 0 then none else some (max secs min_boot_recovery_secs)

-- in seconds
unfoldable pub boot_recovery_after : Config → Option ℕ
boot_recovery_after config = if config.enabled then delay_of config.boot_recovery_secs else none

-- `.as_deref().map(str::trim).unwrap_or_default()`
abbrev pub url_of : Option String → String
url_of none = ""
url_of (some url) = trim url

abbrev pub is_http : String → Bool
is_http url = not (not (starts_with url "https://") && not (starts_with url "http://"))

module _ {V : Type 0} (mini : Minisign) where
  -- the checks of an enabled configuration, by its trimmed URL
  unfoldable pub validate_enabled : String → List String → Result (Error V) (Option UpdateConfig)
  unfolding contains_code
  validate_enabled url pubkeys =
      if is_empty url
      then err (Error.config "`manifestUrl` is required when the plugin is enabled")
      else if not (is_http url)
      then err (Error.config "`manifestUrl` must be an http(s) URL")
      else if contains_code b'?' url
      then err (Error.config "`manifestUrl` must be a plain file URL without a query string")
      else if no_keys pubkeys
      then err (Error.config "at least one trusted minisign public key is required in `pubkeys`")
      else (validate_pubkeys mini pubkeys >>= λ _.
          ok (some (record { manifest_url = url; pubkeys = pubkeys })))

  unfoldable pub validate : Config → Result (Error V) (Option UpdateConfig)
  unfolding validate_enabled trim
  validate config =
      if config.enabled
      then validate_enabled (url_of config.manifest_url) config.pubkeys
      else ok none
