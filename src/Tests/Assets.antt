-- ===== src/Tests/Assets.antt =====
-- The theorems about the assets provider at a concrete bundle.
use tauri_plugin_hot_update.Prelude.{ℕ, true, none, some, List, [], ◌∷◌, ◌≡◌, ◌≢◌, ◌⊎◌, refl}
use tauri_plugin_hot_update.Prelude.Lists.{codes, text_eq}
use tauri_plugin_hot_update.Paths.{components}
use tauri_plugin_hot_update.Store.Persist.{on_disk}
use tauri_plugin_hot_update.Store.Names.{bundle_name}
use tauri_plugin_hot_update.Runtime.{active_dir, initialize, apply_staged}
use tauri_plugin_hot_update.Assets.{Files, Embedded, trim_slashes, ota_file, get, csp_hashes}
use tauri_plugin_hot_update.Assets.Served.{
  IsInside, get-csp_hashes, ota_file-initialize, ota_file-apply_staged,
}
use tauri_plugin_hot_update.Tests.Data.{number_order}
use tauri_plugin_hot_update.Tests.Codec.{codec}
use tauri_plugin_hot_update.Tests.Runtime.{cold, warm, serving_one}
use tauri_plugin_hot_update.Tests.Runtime.{code as runtime_code}

abbrev files : Files
files = record { is_file = λ path. true; read = λ path. some (1 ∷ []) }

abbrev compiled : Embedded
compiled = record { get = λ key. some (2 ∷ []); csp_hashes = λ key. "sha256-x" ∷ [] }

abbrev key : List ℕ
key = codes "/js/app.js"

abbrev path : ℕ → List (List ℕ)
path seq = bundle_name seq ∷ codes "js" ∷ codes "app.js" ∷ []

abbrev facts : Unit {0}
unfolding runtime_code ota_file trim_slashes text_eq components active_dir get csp_hashes
facts = tt

get-csp_hashes_example :
    (get files compiled warm.shared key ≢ compiled.get key
      → csp_hashes files compiled warm.shared key ≡ [])
    × (active_dir warm.shared ≡ none
        → (get files compiled warm.shared key ≡ compiled.get key)
          × (csp_hashes files compiled warm.shared key ≡ compiled.csp_hashes key))
get-csp_hashes_example = get-csp_hashes files compiled warm.shared key

ota_file-initialize_example :
    (seq : ℕ) × IsInside (bundle_name seq ∷ []) (path 2)
    × (((on_disk codec (initialize codec 5 cold).world).booting ≡ some seq)
        ⊎ ((on_disk codec (initialize codec 5 cold).world).committed ≡ some seq))
unfolding facts
ota_file-initialize_example = ota_file-initialize files compiled codec 5 cold key (path 2) refl refl

ota_file-apply_staged_example :
    IsInside (bundle_name 2 ∷ []) (path 2)
    × ((on_disk codec (apply_staged codec warm).1.world).booting ≡ some 2)
unfolding facts
ota_file-apply_staged_example =
    ota_file-apply_staged files compiled codec serving_one warm 2 20 key (path 2) refl refl refl
