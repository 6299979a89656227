-- ===== src/Assets.antt =====
-- The assets provider (src/assets.rs). A path is the list of its names under the bundles directory,
-- a key a list of code points. The embedded assets and the files on disk are parameters.
pub mod Served
use tauri_plugin_hot_update.Prelude.{
  ℕ, String, Bool, true, false, Option, none, some, List, [], ◌∷◌, ◌++◌, ◌==◌, is_some,
  if◌then◌else◌,
}
use tauri_plugin_hot_update.Prelude.Lists.{text_eq}
use tauri_plugin_hot_update.Paths.{Component, normal, components}
use tauri_plugin_hot_update.Runtime.{Shared, active_dir}

-- `key.trim_start_matches('/')`
unfoldable pub trim_slashes : List ℕ → List ℕ
trim_slashes [] = []
trim_slashes (c ∷ cs) = let rest = trim_slashes cs in if c == b'/' then rest else c ∷ cs

-- The loop over the components: each normal one is pushed, any other ends it.
unfoldable pub push_names : List (List ℕ) → List Component → Option (List (List ℕ))
push_names out [] = some out
push_names out (normal part ∷ cs) = push_names (out ++ part ∷ []) cs
push_names out (_ ∷ cs) = none

unfoldable pub safe_join : List (List ℕ) → List ℕ → Option (List (List ℕ))
unfolding push_names
safe_join dir key =
    let rel = trim_slashes key in if text_eq rel [] then none else push_names dir (components rel)

-- `Path::is_file` and `fs::read`, each at the time that the provider asks
pub record Files : Type 0 where
  pub is_file : List (List ℕ) → Bool
  pub read : List (List ℕ) → Option (List ℕ)

-- the assets compiled into the app
pub record Embedded : Type 0 where
  pub get : List ℕ → Option (List ℕ)
  pub csp_hashes : List ℕ → List String

abbrev pub existing : Files → Option (List (List ℕ)) → Option (List (List ℕ))
existing files none = none
existing files (some path) = if files.is_file path then some path else none

abbrev pub joined : List ℕ → Option (List ℕ) → Option (List (List ℕ))
joined key none = none
joined key (some dir) = safe_join (dir ∷ []) key

-- the content of a file, or else that of the embedded asset
abbrev pub or_embedded : Option (List ℕ) → Option (List ℕ) → Option (List ℕ)
or_embedded embedded none = embedded
or_embedded embedded (some bytes) = some bytes

module _ {V : Type 0} (files : Files) (embedded : Embedded) (shared : Shared V) where
  unfoldable pub ota_file : List ℕ → Option (List (List ℕ))
  unfolding active_dir safe_join
  ota_file key = existing files (joined key (active_dir shared))

  unfoldable pub get : List ℕ → Option (List ℕ)
  unfolding ota_file
  get key = elim (ota_file key) [
    | none ↦ embedded.get key
    | some path ↦ or_embedded (embedded.get key) (files.read path)
  ]

  unfoldable pub csp_hashes : List ℕ → List String
  unfolding ota_file
  csp_hashes key = if is_some (ota_file key) then [] else embedded.csp_hashes key
