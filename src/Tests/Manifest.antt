-- ===== src/Tests/Manifest.antt =====
-- The theorems about manifests and the configuration at concrete keys, texts and manifests.
use tauri_plugin_hot_update.Prelude.{
  ℕ, String, Bool, true, false, Option, none, some, [], ◌∷◌, ◌≡◌, refl, str_eq, if◌then◌else◌,
}
use tauri_plugin_hot_update.Prelude.Result.{ok, err}
use tauri_plugin_hot_update.Error.{invalid_public_key}
use tauri_plugin_hot_update.Manifest.{Semver}
use tauri_plugin_hot_update.Manifest.Verify.{validate_pubkeys, verify_and_parse}
use tauri_plugin_hot_update.Manifest.Trust.{
  IsTrusted, verify_and_parse-IsTrusted, verify_and_parse-malformed,
}
use tauri_plugin_hot_update.Config.{Config, validate}
use tauri_plugin_hot_update.Tests.Pipeline.{code, keys, outside, published, config}

abbrev parse_version : String → Option Bool
parse_version t =
    if str_eq t "1.0.0" then some false else if str_eq t "2.0.0" then some true else none

abbrev print_version : Bool → String
print_version false = "1.0.0"
print_version true = "2.0.0"

parse-print : (v : Bool) → parse_version (print_version v) ≡ some v
parse-print false = refl
parse-print true = refl

abbrev two_versions : Semver Bool
two_versions = record { parse = parse_version; print = print_version; parse-print = parse-print }

verify_and_parse-IsTrusted_example :
    IsTrusted keys outside.parse_json (1 ∷ []) (7 ∷ []) ("other" ∷ "good" ∷ []) published
unfolding code
verify_and_parse-IsTrusted_example =
    verify_and_parse-IsTrusted keys outside.parse_json (1 ∷ []) (7 ∷ []) ("other" ∷ "good" ∷ [])
      published refl

verify_and_parse-malformed_example :
    verify_and_parse keys outside.parse_json (1 ∷ []) (7 ∷ []) ("good" ∷ "x" ∷ [])
    ≡ err invalid_public_key
unfolding code validate_pubkeys
verify_and_parse-malformed_example =
    verify_and_parse-malformed keys outside.parse_json (1 ∷ []) (7 ∷ []) ("good" ∷ "x" ∷ [])
      invalid_public_key refl

abbrev pub configured : Config
configured = record {
  manifest_url = some " https://a/m.json ";
  pubkeys = "other" ∷ "good" ∷ [];
  enabled = true;
  boot_recovery_secs = some 2;
}

usable : validate {V = ℕ} keys configured ≡ ok (some config)
unfolding code validate validate_pubkeys
usable = refl
