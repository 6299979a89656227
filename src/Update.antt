-- ===== src/Update.antt =====
-- The gate of the update pipeline (src/update.rs): what a verified manifest is answered before any
-- byte of its archive is downloaded.
pub mod Gate
pub mod Pipeline
pub mod Fresh
pub mod Settled
pub mod Keeps
pub mod Fetch
pub mod Unpacked
pub mod Runs
pub mod Checks
use tauri_plugin_hot_update.Prelude.{
  ℕ, String, Bool, Option, none, some, is_some_and, if◌then◌else◌, or_else, str_eq,
}
use tauri_plugin_hot_update.Prelude.Map
use tauri_plugin_hot_update.Prelude.Map.{Map}
use tauri_plugin_hot_update.Prelude.Hashes
use tauri_plugin_hot_update.Version.{Order, at_most, newer}
use tauri_plugin_hot_update.Manifest.{Manifest, BaseVersion, valid, invalid}
use tauri_plugin_hot_update.Machine.{BundleMeta, State}

pub data UpdateOutcome (V : Type 0) : Type 0 where
  available : Manifest V → UpdateOutcome V
  staged : (seq : ℕ) (version : V) → UpdateOutcome V
  up_to_date : (offered watermark : V) → UpdateOutcome V
  blacklisted : (version : V) → UpdateOutcome V
  shell_too_old : (required shell : V) → UpdateOutcome V
  shell_newer_than_base : (base shell : V) → UpdateOutcome V
  invalid_base_version : (base : String) (shell : V) → UpdateOutcome V
  already_staged : (seq : ℕ) (version : V) → UpdateOutcome V

module _ {V : Type 0} where
  -- the metadata that the pipeline stages
  abbrev pub meta_of : Manifest V → BundleMeta V
  meta_of m = record {
    version = m.version;
    archive_sha256 = m.archive.sha256;
    base_version = m.base_version;
  }

module _ {V : Type 0} ⦃o : Order V⦄ where
  abbrev pub watermark_gate : Manifest V → Option V → Option (UpdateOutcome V)
  watermark_gate m none = none
  watermark_gate m (some watermark) =
      if at_most m.version watermark then some (up_to_date m.version watermark) else none

  abbrev pub blacklist_gate : Manifest V → State V → Option (UpdateOutcome V)
  blacklist_gate m s =
      if Hashes.contains m.archive.sha256 s.failed then some (blacklisted m.version) else none

  abbrev pub shell_gate : Manifest V → V → Option (UpdateOutcome V)
  shell_gate m shell =
      if newer m.min_shell_version shell
      then some (shell_too_old m.min_shell_version shell)
      else none

  abbrev pub base_version_gate : Option (BaseVersion V) → V → Option (UpdateOutcome V)
  base_version_gate none shell = none
  base_version_gate (some (valid base)) shell =
      if newer shell base then some (shell_newer_than_base base shell) else none
  base_version_gate (some (invalid raw)) shell = some (invalid_base_version raw shell)

  abbrev pub same_archive : Manifest V → Option (BundleMeta V) → Bool
  same_archive m = is_some_and (λ meta. str_eq meta.archive_sha256 m.archive.sha256)

  abbrev pub staged_gate : Manifest V → Option ℕ → Map (BundleMeta V) → Option (UpdateOutcome V)
  staged_gate m none versions = none
  staged_gate m (some seq) versions =
      if same_archive m (Map.get seq versions) then some (already_staged seq m.version) else none

  -- The first gate that refuses.
  unfoldable pub gate : Manifest V → State V → V → Option (UpdateOutcome V)
  gate m s shell = or_else (watermark_gate m s.max_version_seen) (
      or_else (blacklist_gate m s) (
        or_else (shell_gate m shell)
          (or_else (base_version_gate m.base_version shell) (staged_gate m s.staged s.versions))))
