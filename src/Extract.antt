-- ===== src/Extract.antt =====
-- The paths of an archive's entries (src/extract.rs).
pub mod Entries
pub mod Reader
pub mod Caps
pub mod Whole
pub mod Inside
use tauri_plugin_hot_update.Prelude.{
  ℕ, Bool, true, false, ◌||◌, Option, none, some, List, [], ◌∷◌, ◌++◌, ◌==◌, if◌then◌else◌,
}
use tauri_plugin_hot_update.Prelude.Lists.{text_eq}
use tauri_plugin_hot_update.Prelude.Result.{Result, ok, err}
use tauri_plugin_hot_update.Error.{ExtractError, unsafe_path}
use tauri_plugin_hot_update.Paths.{Component, root_dir, cur_dir, parent_dir, normal, components}

-- `raw.contains('\\') || raw.contains(':')`
unfoldable pub has_separator : List ℕ → Bool
has_separator [] = false
has_separator (c ∷ cs) = c == b'\\' || c == b':' || has_separator cs

-- The loop over the components: each normal one is pushed, any other ends it.
unfoldable pub push_components :
    List (List ℕ) → Bool → List Component → Option (List (List ℕ) × Bool)
push_components out pushed [] = some (out, pushed)
push_components out pushed (normal part ∷ cs) = push_components (out ++ part ∷ []) true cs
push_components out pushed (_ ∷ cs) = none

abbrev joined : List ℕ → Option (List (List ℕ) × Bool) → Result ExtractError (List (List ℕ))
joined raw none = err (unsafe_path raw)
joined raw (some (out, pushed)) = if pushed then ok out else err (unsafe_path raw)

unfoldable pub safe_join : List (List ℕ) → List ℕ → Result ExtractError (List (List ℕ))
unfolding has_separator push_components
safe_join target raw =
    if text_eq raw [] || has_separator raw
    then err (unsafe_path raw)
    else joined raw (push_components target false (components raw))
