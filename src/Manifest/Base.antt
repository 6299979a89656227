-- ===== src/Manifest/Base.antt =====
-- `baseVersion` as text (src/manifest.rs).
use tauri_plugin_hot_update.Prelude.{String, none, ◌≡◌, arith, Option-cases, inl, inr}
use tauri_plugin_hot_update.Manifest.{Semver, text, parse_base, deserialize, display}

module _ {V : Type 0} (semver : Semver V) where
  -- A base version that was parsed from a text prints a text that parses to it again, and prints
  -- the text itself where that is not a semver.
  pub deserialize-display :
      (raw : String)
      → (deserialize semver (text (display semver (parse_base semver raw))) ≡ parse_base semver raw)
        × (semver.parse raw ≡ none → display semver (parse_base semver raw) ≡ raw)
  unfolding deserialize display
  deserialize-display raw = elim (Option-cases (semver.parse raw)) [
    | inl n ↦ (ground arith, λ h. ground arith)
    | inr (v, n) ↦ (ground (arith, semver.parse-print v), λ h. ground arith)
  ]
