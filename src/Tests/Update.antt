-- ===== src/Tests/Update.antt =====
-- The theorems about the gate of the update pipeline at concrete manifests.
use tauri_plugin_hot_update.Prelude.{ℕ, true, none, some, [], ◌∷◌, ◌≡◌, refl}
use tauri_plugin_hot_update.Prelude.Set
use tauri_plugin_hot_update.Prelude.Map
use tauri_plugin_hot_update.Prelude.Hashes
use tauri_plugin_hot_update.Manifest.{Manifest}
use tauri_plugin_hot_update.Machine.{State, referenced, ota}
use tauri_plugin_hot_update.Machine.Boot.{resolve_boot}
use tauri_plugin_hot_update.Machine.Session.{stage}
use tauri_plugin_hot_update.Update.{meta_of, gate}
use tauri_plugin_hot_update.Update.Gate.{is_accepted, gate-stage-resolve_boot}
use tauri_plugin_hot_update.Tests.Data.{number_order, acked}

-- bundle version 30, for shells from version 4 on
abbrev offer : Manifest ℕ
offer = record {
  version = 30;
  created_at = "2026-01-01T00:00:00Z";
  min_shell_version = 4;
  base_version = none;
  archive = record { url = "https://a/b.tar.gz"; sha256 = "cc"; size = 9 };
}

-- an install that has seen version 40
abbrev ahead : State ℕ
ahead = record acked { max_version_seen = some 40 }

gate-stage-resolve_boot_example :
    (is_accepted (stage acked 3 (meta_of offer)).1 ≡ true)
    × ((resolve_boot (stage acked 3 (meta_of offer)).0 5 (2 ∷ 3 ∷ [])).active ≡ ota 3)
    × ((resolve_boot (stage acked 3 (meta_of offer)).0 5 (2 ∷ 3 ∷ [])).state.booting ≡ some 3)
    × ((resolve_boot (stage acked 3 (meta_of offer)).0 5 (2 ∷ 3 ∷ [])).state.booting_strikes ≡ 0)
gate-stage-resolve_boot_example =
    gate-stage-resolve_boot offer acked 3 5 (2 ∷ 3 ∷ []) (unfold gate Hashes.contains in refl)
      (unfold Set.contains Set.insert referenced Map.get in refl) refl refl
      (unfold Set.contains in refl)
