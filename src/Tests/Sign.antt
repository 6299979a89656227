-- ===== src/Tests/Sign.antt =====
-- The theorem about signed releases at a dist directory with two files.
use tauri_plugin_hot_update.Prelude.{
  ℕ, Bool, true, ◌&&◌, ◌==◌, none, some, List, [], ◌∷◌, ◌≡◌, refl, inl, inr, arith, str_eq, eq_iff,
  if◌then◌else◌,
}
use tauri_plugin_hot_update.Prelude.Lists.{length, codes}
use tauri_plugin_hot_update.Prelude.Hex.{hex_text}
use tauri_plugin_hot_update.Prelude.Result.{ok}
use tauri_plugin_hot_update.Manifest.{Manifest}
use tauri_plugin_hot_update.Manifest.Verify.{validate_pubkeys, verify_and_parse}
use tauri_plugin_hot_update.Download.{to_hex}
use tauri_plugin_hot_update.Sign.{
  leaf, folder, finished, listed, SignOptions, SignedRelease, Publisher, sign_release,
}
use tauri_plugin_hot_update.Sign.Verified.{KeyPair, verify_and_parse-sign_release}
use tauri_plugin_hot_update.Tests.Data.{full_sha}
use tauri_plugin_hot_update.Tests.Codec.{base_eq, base_eq_sound}
use tauri_plugin_hot_update.Tests.Pipeline.{code, keys, outside}

abbrev release : Manifest ℕ
release = record {
  version = 30;
  created_at = "2026-01-01T00:00:00Z";
  min_shell_version = 4;
  base_version = none;
  archive = record { url = "https://a/bundle-30.tar.gz"; sha256 = full_sha; size = 2 };
}

abbrev manifest_eq : Manifest ℕ → Manifest ℕ → Bool
manifest_eq m n =
    m.version == n.version
    && str_eq m.created_at n.created_at
    && m.min_shell_version == n.min_shell_version
    && base_eq m.base_version n.base_version
    && str_eq m.archive.url n.archive.url
    && str_eq m.archive.sha256 n.archive.sha256
    && m.archive.size == n.archive.size

manifest_eq_sound : (m n : Manifest ℕ) → manifest_eq m n ≡ true → m ≡ n
manifest_eq_sound m n h = ground (
  arith,
  eq_iff m.created_at n.created_at,
  base_eq_sound m.base_version n.base_version,
  eq_iff m.archive.url n.archive.url,
  eq_iff m.archive.sha256 n.archive.sha256,
)

abbrev pub publisher : Publisher ℕ
publisher = record {
  makes_out = true;
  reads_dist = true;
  pack = λ files. some (1 ∷ 2 ∷ []);
  reads_archive = true;
  now = "2026-01-01T00:00:00Z";
  sha256 = outside.sha256;
  print_version = λ v. "30";
  print_json = λ m. if manifest_eq m release then some (5 ∷ []) else none;
  writes_manifest = true;
  sign = λ bytes. some (7 ∷ []);
  writes_signature = true;
}

json :
    (m : Manifest ℕ) (bytes : List ℕ) → publisher.print_json m ≡ some bytes → some release ≡ some m
json m bytes h = ground (arith, manifest_eq_sound m release)

abbrev pub options : SignOptions ℕ
options = record {
  dist =
      listed (codes "js") (folder (listed (codes "app.js") (leaf (1 ∷ [])) finished))
        (listed (codes "index.html") (leaf (2 ∷ [])) finished);
  version = 30;
  min_shell_version = 4;
  base_version = none;
  base_url = "https://a//";
}

abbrev pub signed : SignedRelease ℕ
signed = record {
  archive = 1 ∷ 2 ∷ [];
  manifest_bytes = 5 ∷ [];
  signature = 7 ∷ [];
  manifest = release;
}

unfoldable pub sign_code : Unit {0}
unfolding code sign_release hex_text validate_pubkeys
sign_code = tt

signs :
    (bytes signature : List ℕ)
    → publisher.sign bytes ≡ some signature
    → (decoded : ℕ) × (keys.decode_signature signature ≡ some decoded)
      × (keys.verify "good" bytes decoded ≡ true)
signs bytes signature h = (7, ground arith, refl)

abbrev pair : KeyPair keys publisher
unfolding code
pair = record { text = "good"; key = "good"; decodes = refl; signs = signs }

verify_and_parse-sign_release_example :
    (verify_and_parse keys (λ bytes. some release) (5 ∷ []) (7 ∷ []) ("other" ∷ "good" ∷ [])
      ≡ ok release)
    × (2 ≡ length signed.archive)
    × (codes full_sha ≡ to_hex (publisher.sha256 signed.archive))
unfolding code sign_release hex_text validate_pubkeys
verify_and_parse-sign_release_example =
    verify_and_parse-sign_release keys publisher pair (λ bytes. some release) options signed
      ("other" ∷ "good" ∷ []) (λ m bytes h k. json m bytes k) refl refl (omega arith) (omega arith)
      (inr (inl refl)) refl refl
