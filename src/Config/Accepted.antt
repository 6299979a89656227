-- ===== src/Config/Accepted.antt =====
-- What a configuration has that `validate` (src/config.rs) accepts.
use tauri_plugin_hot_update.Prelude.{
  ℕ, String, ◌≤◌, true, false, Option, none, some, List, ◌≡◌, ◌≢◌, ◌↔◌, arith, inl, inr, Bool-cases,
}
use tauri_plugin_hot_update.Prelude.Texts.{is_empty, contains_code}
use tauri_plugin_hot_update.Prelude.Result.{ok, err, Result-cases}
use tauri_plugin_hot_update.Error.{invalid_public_key}
use tauri_plugin_hot_update.Manifest.{Manifest}
use tauri_plugin_hot_update.Manifest.Verify.{Minisign, validate_pubkeys, verify_and_parse, no_keys}
use tauri_plugin_hot_update.Manifest.Trust.{verify_and_parse-known_keys}
use tauri_plugin_hot_update.Update.Pipeline.{UpdateConfig}
use tauri_plugin_hot_update.Config.{
  Config, boot_recovery_after, url_of, is_http, validate_enabled, validate,
}

module _ (V : Type 0) (mini : Minisign) where
  -- a plain http(s) URL, and at least one key, each of which parses
  pub record IsUsable (config : Config) (u : UpdateConfig) : Type 0 where
    pub enabled : config.enabled ≡ true
    pub url : u.manifest_url ≡ url_of config.manifest_url
    pub keys : u.pubkeys ≡ config.pubkeys
    pub some_url : is_empty u.manifest_url ≡ false
    pub http : is_http u.manifest_url ≡ true
    pub plain : contains_code b'?' u.manifest_url ≡ false
    pub some_key : no_keys u.pubkeys ≡ false
    pub parsed : validate_pubkeys {V = V} mini u.pubkeys ≡ ok tt

  -- every check of an enabled configuration
  abbrev Passes : String → List String → Type 0
  Passes url pubkeys =
      (is_empty url ≡ false)
      × (is_http url ≡ true)
      × (contains_code b'?' url ≡ false)
      × (no_keys pubkeys ≡ false)
      × (validate_pubkeys {V = V} mini pubkeys ≡ ok tt)

  validate_enabled-passes :
      (url : String) (pubkeys : List String) (out : Option UpdateConfig)
      → validate_enabled {V = V} mini url pubkeys ≡ ok out
      → (out ≡ some (record { manifest_url = url; pubkeys = pubkeys })) × Passes url pubkeys
  unfolding validate_enabled
  validate_enabled-passes url pubkeys out h =
      elim (Result-cases (validate_pubkeys {V = V} mini pubkeys)) [
        | inl (done, k) ↦ ground arith
        | inr (e, k) ↦ absurd (ground arith)
      ]

  -- A configuration is disabled exactly if it is not validated at all. One that is accepted has a
  -- plain http(s) URL, trimmed, and at least one key, and every key parses.
  pub validate-IsUsable :
      (config : Config)
      → ((validate {V = V} mini config ≡ ok none) ↔ (config.enabled ≡ false))
        × ((u : UpdateConfig) → validate {V = V} mini config ≡ ok (some u) → IsUsable config u)
  unfolding validate
  validate-IsUsable config = (
    (
      λ h. elim (Bool-cases config.enabled) [
        | inr n ↦ n
        | inl y ↦
            let (p, _) =
              validate_enabled-passes (url_of config.manifest_url) config.pubkeys none
                (ground arith) in
            absurd (ground arith)
      ],
      λ n. ground arith,
    ),
    λ u h.
        let on : config.enabled ≡ true = ground arith in
        let (r, p) =
          validate_enabled-passes (url_of config.manifest_url) config.pubkeys (some u)
            (ground arith) in
        record {
          enabled = on;
          url = ground (arith, r);
          keys = ground (arith, r);
          some_url = ground (arith, r, p);
          http = ground (arith, r, p);
          plain = ground (arith, r, p);
          some_key = ground (arith, r, p);
          parsed = ground (arith, r, p);
        },
  )

  -- After a start that accepted the configuration, no manifest is refused for a malformed key.
  pub validate-verify_and_parse :
      (parse_json : List ℕ → Option (Manifest V)) (config : Config) (u : UpdateConfig)
      (bytes signature : List ℕ)
      → validate {V = V} mini config ≡ ok (some u)
      → verify_and_parse mini parse_json bytes signature u.pubkeys ≢ err invalid_public_key
  validate-verify_and_parse parse_json config u bytes signature h =
      let usable = (validate-IsUsable config).1 u h in
      verify_and_parse-known_keys mini parse_json bytes signature u.pubkeys usable.some_key
        usable.parsed

-- A recovery delay is at least five seconds, and there is none for a disabled plugin.
pub boot_recovery_after_bounds :
    (config : Config) (secs : ℕ)
    → boot_recovery_after config ≡ some secs
    → (config.enabled ≡ true) × (5 ≤ secs)
unfolding boot_recovery_after
boot_recovery_after_bounds config secs h = ground arith
