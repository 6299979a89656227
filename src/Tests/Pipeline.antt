-- ===== src/Tests/Pipeline.antt =====
-- The theorems about runs of the update pipeline at a concrete server, with a digest that is the
-- same for all bytes, and keys and signatures that are texts and bytes.
use tauri_plugin_hot_update.Prelude.{
  ℕ, String, true, false, ◌&&◌, ◌==◌, ◌≢◌, Option, none, some, List, [], ◌∷◌, ◌≡◌, refl, str_eq,
  if◌then◌else◌,
}
use tauri_plugin_hot_update.Prelude.Lists.{codes}
use tauri_plugin_hot_update.Prelude.Result.{ok}
use tauri_plugin_hot_update.Manifest.{Manifest}
use tauri_plugin_hot_update.Manifest.Verify.{Minisign, lower_sha, verify_and_parse}
use tauri_plugin_hot_update.Machine.{ota}
use tauri_plugin_hot_update.Download.{Response}
use tauri_plugin_hot_update.Extract.Entries.{entry, regular}
use tauri_plugin_hot_update.Store.Names.{bundle_name}
use tauri_plugin_hot_update.Runtime.{App, Activation}
use tauri_plugin_hot_update.Update.{UpdateOutcome, available, staged}
use tauri_plugin_hot_update.Update.Pipeline.{
  UpdateConfig, Outside, TempNames, fetch_verified_manifest, check, check_and_download,
}
use tauri_plugin_hot_update.Update.Runs.{
  IsStaged, check_and_download-unstaged, check_and_download-IsStaged,
}
use tauri_plugin_hot_update.Update.Checks.{check-check_and_download}
use tauri_plugin_hot_update.Manifest.Verify.{parse_public_key, decode_key}
use tauri_plugin_hot_update.Prelude.Texts.{lower_char}
use tauri_plugin_hot_update.Prelude.Utf8.{is_utf8}
use tauri_plugin_hot_update.Paths.{components}
use tauri_plugin_hot_update.Extract.{safe_join}
use tauri_plugin_hot_update.Extract.Entries.{extract_with_limits}
use tauri_plugin_hot_update.Download.{fetch_capped, download_archive}
use tauri_plugin_hot_update.Update.{gate}
use tauri_plugin_hot_update.Update.Pipeline.{fetch_with_client}
use tauri_plugin_hot_update.Store.{save_state, update}
use tauri_plugin_hot_update.Store.Disk.{create_bundles, add_file, add_dir, rename_dir}
use tauri_plugin_hot_update.Tests.Codec.{encode, decode}
use tauri_plugin_hot_update.Store.Persist.{on_disk}
use tauri_plugin_hot_update.Tests.Store.{code as store_code}
use tauri_plugin_hot_update.Tests.Machine.{code as machine_code}
use tauri_plugin_hot_update.Tests.Data.{number_order, two_bundles}
use tauri_plugin_hot_update.Tests.Codec.{codec}

-- a key is its text, `x` is no key; a signature is one byte, 7 where it is right
abbrev pub keys : Minisign
keys = record {
  Key = String;
  Signature = ℕ;
  decode = λ t. none;
  from_base64 = λ t. if str_eq t "x" then none else some t;
  decode_signature = λ bytes. elim bytes [ [] ↦ none | b ∷ _ ↦ some b ];
  verify = λ key bytes signature. str_eq key "good" && signature == 7;
}

-- the hash is in upper case
abbrev pub upper : Manifest ℕ
upper = record {
  version = 30;
  created_at = "2026-01-01T00:00:00Z";
  min_shell_version = 4;
  base_version = none;
  archive = record {
    url = "https://a/b.tar.gz";
    sha256 = "00112233445566778899AABBCCDDEEFF00112233445566778899AABBCCDDEEFF";
    size = 2;
  };
}

abbrev pub published : Manifest ℕ
published = lower_sha upper

abbrev body : ℕ → Option Response
body n = some (record { success = true; status = 200; chunks = some (n ∷ 2 ∷ []) ∷ [] })

abbrev half : List ℕ
half = 0 ∷ 17 ∷ 34 ∷ 51 ∷ 68 ∷ 85 ∷ 102 ∷ 119 ∷ 136 ∷ 153 ∷ 170 ∷ 187 ∷ 204 ∷ 221 ∷ 238 ∷ 255 ∷ []

abbrev pub outside : Outside ℕ
outside = record {
  builds = true;
  send = λ url. body 7;
  sha256 = λ bytes.
      0 ∷ 17 ∷ 34 ∷ 51 ∷ 68 ∷ 85 ∷ 102 ∷ 119 ∷ 136 ∷ 153 ∷ 170 ∷ 187 ∷ 204 ∷ 221 ∷ 238 ∷ 255 ∷ half;
  unpack = λ bytes.
      entry (record {
        path = codes "app.js";
        entry_type = regular;
        size = some 1;
        bytes = 1 ∷ [];
        fault = none;
      })
      ∷ [];
  mini = keys;
  parse_json = λ bytes. some upper;
}

abbrev pub config : UpdateConfig
config = record { manifest_url = "https://a/m.json"; pubkeys = "other" ∷ "good" ∷ [] }

abbrev pub temporaries : TempNames
temporaries = record { part = b'0' ∷ []; dir = b'1' ∷ [] }

abbrev pub serving : Activation ℕ
serving = record {
  current = record { active = ota 2; active_dir = some (bundle_name 2); active_version = 20 };
  embedded_version = 5;
}

-- bundle 2 is committed and served, and the page has not acked in this process
abbrev pub running : App ℕ
running = record {
  shared = record { activation = some serving; page_acked = false; reload_pending = false };
  world = record two_bundles { state_json = some (4 ∷ []) };
}

unfoldable pub code : Unit {0}
unfolding store_code machine_code check_and_download fetch_with_client fetch_verified_manifest
    fetch_capped is_utf8 verify_and_parse parse_public_key decode_key gate decode encode lower_char
    create_bundles add_file add_dir rename_dir download_archive extract_with_limits safe_join
    components update save_state
code = tt

stages : (check_and_download codec outside config temporaries running).0 ≡ ok (staged 3 30)
unfolding code
stages = refl

check_and_download-IsStaged_example :
    IsStaged codec outside config temporaries serving running
      (check_and_download codec outside config temporaries running).1
      3
      30
check_and_download-IsStaged_example =
    check_and_download-IsStaged codec outside config temporaries serving running 3 30 refl stages

-- no server answers
abbrev offline : Outside ℕ
offline = record outside { send = λ url. none }

fails :
    (seq v : ℕ)
    → (check_and_download codec offline config temporaries running).0 ≢ ok (staged seq v)
unfolding code
fails seq v h = cc

check_and_download-unstaged_example :
    (on_disk codec (check_and_download codec offline config temporaries running).1.world
      ≡ on_disk codec running.world)
    × ((check_and_download codec offline config temporaries running).1.shared ≡ running.shared)
check_and_download-unstaged_example =
    check_and_download-unstaged codec offline config temporaries running fails

check-check_and_download_example :
    (on_disk codec (check codec outside config running).1.world ≡ on_disk codec running.world)
    × ((check codec outside config running).1.shared ≡ running.shared)
    × ((out : UpdateOutcome ℕ)
        → (check codec outside config running).0 ≡ ok out
        → ((n : Manifest ℕ) → out ≢ available n)
        → (check_and_download codec outside config temporaries running).0 ≡ ok out)
check-check_and_download_example = check-check_and_download codec outside config temporaries running
